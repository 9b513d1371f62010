-- ===== src/ShmDict/Valid/Steps.antt =====
-- The shared steps and the invariant: a move to the head, an unlinking, a write, a link.
use nginx_modules.Base.{
  ℕ, ◌+◌, ◌-◌, ◌≤◌, ◌<◌, ◌≡◌, ◌≢◌, refl, subst, ◌∙◌, ap, Bool-cases, inl, inr, true, ◌∷◌, count,
  erase, count-erase, if◌then◌else◌, ◌==◌, ℕ_discrete, arith,
}
use nginx_modules.ShmDict.Platform.{Platform, IsPlatform, Tree, sentinel, branch, inorder}
use nginx_modules.ShmDict.Node.{Node, sort_key, update}
use nginx_modules.ShmDict.Order.{IsSorted, IsSorted-agree, IsSorted-erase}
use nginx_modules.ShmDict.Rbtree.{insert_value}
use nginx_modules.ShmDict.Rbtree.Search.{count-insert_value, insert_value-IsSorted}
use nginx_modules.ShmDict.Zone.{Dict, touch, unlink, store}
use nginx_modules.ShmDict.Access.{link}
use nginx_modules.ShmDict.Valid.{IsFilled, IsValid}

-- A write reads back at its address, and nothing else changes.
pub update-elim {κ} :
    (Q : Node → Type κ) (heap : ℕ → Node) (a : ℕ) (sd : Node) (b : ℕ)
    → (a ≡ b → Q sd)
    → (a ≢ b → Q (heap b))
    → Q (update heap a sd b)
update-elim Q heap a sd b here there = elim (Bool-cases (a == b)) [
  | inl e ↦ rw e (here (ground arith))
  | inr e ↦ rw e (there (ground arith))
]

pub update_self : (heap : ℕ → Node) (a : ℕ) (sd : Node) → update heap a sd a ≡ sd
update_self heap a sd = update-elim (λ x. x ≡ sd) heap a sd a (λ e. refl) (λ n. absurd (n refl))

pub update-ne : (heap : ℕ → Node) (a : ℕ) (sd : Node) (b : ℕ) → a ≢ b → update heap a sd b ≡ heap b
update-ne heap a sd b n = update-elim (λ x. x ≡ heap b) heap a sd b (λ e. absurd (n e)) (λ m. refl)

module _ {P : Type 0} (p : Platform P) (laws : IsPlatform p) where
  -- nginx's insertion with the callback of this module, into any tree.
  pub count-rbtree_insert :
      (heap : ℕ → Node) (t : Tree) (a b : ℕ)
      → count b (inorder (p.rbtree_insert (insert_value p heap) t a))
        ≡ (if a == b then count b (inorder t) + 1 else count b (inorder t))
  count-rbtree_insert heap sentinel a b =
      rw (laws.insert_empty (insert_value p heap) a) (ground arith)
  count-rbtree_insert heap (branch l c r) a b =
      rw (laws.insert_inorder (insert_value p heap) l r c a)
        (count-insert_value p laws heap (branch l c r) a b)

  pub rbtree_insert-IsSorted :
      (heap : ℕ → Node) (t : Tree) (a : ℕ)
      → IsSorted p (λ b. sort_key (heap b)) (inorder t)
      → IsSorted p (λ b. sort_key (heap b)) (inorder (p.rbtree_insert (insert_value p heap) t a))
  rbtree_insert-IsSorted heap sentinel a s = rw (laws.insert_empty (insert_value p heap) a) (tt, tt)
  rbtree_insert-IsSorted heap (branch l c r) a s =
      rw (laws.insert_inorder (insert_value p heap) l r c a)
        (insert_value-IsSorted p laws heap (branch l c r) a s)

  pub touch-queue : (d : Dict P) (a : ℕ) → (touch p d a).queue ≡ a ∷ erase a d.queue
  unfolding touch
  touch-queue d a = rw (laws.insert_head_lem, laws.remove_lem)

  pub count-touch :
      (d : Dict P) (a b : ℕ)
      → 0 < count a d.queue
      → count a d.queue ≤ 1
      → count b (touch p d a).queue ≡ count b d.queue
  count-touch d a b h o = rw (touch-queue d a) (ground (arith, count-erase a b d.queue))

  pub touch-IsValid :
      (d : Dict P) (a : ℕ) → 0 < count a d.queue → IsValid p d → IsValid p (touch p d a)
  unfolding touch
  touch-IsValid d a h v = record {
    same = λ b. count-touch d a b h (v.once a) ∙ v.same b;
    once = λ b. omega (arith, count-touch d a b h (v.once a), v.once b);
    live = λ b c. v.live b (omega (arith, count-touch d a b h (v.once a)));
    filled = λ b c. v.filled b (omega (arith, count-touch d a b h (v.once a)));
    sorted = v.sorted;
  }

  pub unlink-queue : (d : Dict P) (a : ℕ) → (unlink p d a).queue ≡ erase a d.queue
  unfolding unlink
  unlink-queue d a = laws.remove_lem d.queue a

  pub count-unlink :
      (d : Dict P) (a b : ℕ)
      → count b (unlink p d a).queue ≡ (if a == b then count b d.queue - 1 else count b d.queue)
  count-unlink d a b = rw (unlink-queue d a) (count-erase a b d.queue)

  pub unlink-IsValid : (d : Dict P) (a : ℕ) → IsValid p d → IsValid p (unlink p d a)
  unfolding unlink
  unlink-IsValid d a v = record {
    same = λ b.
        rw (laws.remove_lem, laws.delete_inorder)
          (ground (arith, count-erase a b d.queue, count-erase a b (inorder d.root), v.same b));
    once = λ b. ground (arith, count-unlink d a b, v.once b);
    live =
        λ b c. ground (arith, count-unlink d a b, v.once b, v.live b, laws.free_live d.shpool a b);
    filled = λ b c. v.filled b (ground (arith, count-unlink d a b));
    sorted =
        rw (laws.delete_inorder d.root a)
          (IsSorted-erase p laws (λ b. sort_key (d.heap b)) a (inorder d.root) v.sorted);
  }

  -- A write keeps the invariant if it leaves the node's key and fills the node.
  pub store-IsValid :
      (d : Dict P) (a : ℕ) (sd : Node)
      → sort_key sd ≡ sort_key (d.heap a)
      → IsFilled p sd
      → IsValid p d
      → IsValid p (store p d a sd)
  unfolding store
  store-IsValid d a sd e f v = record {
    same = v.same;
    once = v.once;
    live = v.live;
    filled = λ b c. update-elim (IsFilled p) d.heap a sd b (λ e'. f) (λ n. v.filled b c);
    sorted =
        IsSorted-agree p (λ b. sort_key (d.heap b)) (λ b. sort_key (update d.heap a sd b))
          (inorder d.root)
          (λ b c.
            update-elim (λ x. sort_key x ≡ sort_key (d.heap b)) d.heap a sd b
              (λ e'. e ∙ ap (λ x. sort_key (d.heap x)) e') (λ n. refl))
          v.sorted;
  }

  pub link-queue : (d : Dict P) (a : ℕ) (sd : Node) → (link p d a sd).queue ≡ a ∷ d.queue
  unfolding link
  link-queue d a sd = laws.insert_head_lem d.queue a

  -- A fresh node is linked.
  pub link-IsValid :
      (d : Dict P) (a : ℕ) (sd : Node)
      → count a d.queue ≡ 0
      → p.is_live d.shpool a ≡ true
      → IsFilled p sd
      → IsValid p d
      → IsValid p (link p d a sd)
  unfolding link store
  link-IsValid d a sd new l f v = record {
    same = λ b.
        rw laws.insert_head_lem
          (ground (arith, count-rbtree_insert (update d.heap a sd) d.root a b, v.same b));
    once = λ b. rw laws.insert_head_lem (ground (arith, v.once b));
    live = λ b c. elim (ℕ_discrete a b) [
      | yes e ↦ subst (λ x. p.is_live d.shpool x ≡ true) e l
      | no n ↦ v.live b (ground (arith, link-queue d a sd))
    ];
    filled = λ b c.
        update-elim (IsFilled p) d.heap a sd b (λ e. f)
          (λ n. v.filled b (ground (arith, link-queue d a sd)));
    sorted = rbtree_insert-IsSorted (update d.heap a sd) d.root a (
        IsSorted-agree p (λ b. sort_key (d.heap b)) (λ b. sort_key (update d.heap a sd b))
          (inorder d.root)
          (λ b c.
            update-elim (λ x. sort_key x ≡ sort_key (d.heap b)) d.heap a sd b
              (λ e. absurd (ground (arith, v.same b))) (λ n. refl))
          v.sorted);
  }
