-- ===== src/ShmDict/Rbtree/Counting.antt =====
-- The loop of ngx_shm_dict_count by the rounds it makes.
use nginx_modules.Base.{ℕ, zero, suc, ◌+◌, ◌≡◌, refl, none, some}
use nginx_modules.ShmDict.Platform.{Tree, sentinel, branch}
use nginx_modules.ShmDict.Rbtree.{count_loop}

-- On a tree that has a node the loop has not ended after any number of rounds.
pub count_loop-branch : (fuel : ℕ) (l r : Tree) (a c : ℕ) → count_loop fuel (branch l a r) c ≡ none
unfolding count_loop
count_loop-branch zero l r a c = refl
count_loop-branch (suc fuel) sentinel sentinel a c =
    count_loop-branch fuel sentinel sentinel a (c + 1)
count_loop-branch (suc fuel) sentinel (branch l b r) a c = count_loop-branch fuel l r b (c + 1)
count_loop-branch (suc fuel) (branch l b r) t a c = count_loop-branch fuel l r b (c + 1)

-- The loop counts 0 nodes in an empty tree, and a tree on which it ends, after whatever number of
-- rounds, is empty.
pub count_loop_ends :
    (fuel : ℕ) (t : Tree)
    → (count_loop (suc fuel) sentinel 0 ≡ some 0)
      × ((n : ℕ) → count_loop fuel t 0 ≡ some n → t ≡ sentinel)
unfolding count_loop
count_loop_ends fuel sentinel = (refl, λ n e. refl)
count_loop_ends fuel (branch l a r) = (refl, λ n e. absurd (cc (count_loop-branch fuel l r a 0, e)))
