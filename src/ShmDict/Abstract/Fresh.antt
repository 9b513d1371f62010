-- ===== src/ShmDict/Abstract/Fresh.antt =====
-- A zone from its start on: ngx_shm_dict_init_zone, and then any calls that set no expiry time.
use nginx_modules.Base.{ℕ, ◌≡◌, none, List}
use nginx_modules.ShmDict.Platform.{Platform}
use nginx_modules.ShmDict.Node.{Node}
use nginx_modules.ShmDict.Abstract.{Map}
use nginx_modules.ShmDict.Abstract.Runs.{Runs}

module _ {P : Type 0} (p : Platform P) where
  -- No entry at all.
  abbrev pub IsEmpty : Map → Type 0
  IsEmpty m = (key : List ℕ) → m key ≡ none
