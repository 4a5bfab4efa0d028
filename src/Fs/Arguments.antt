-- ===== src/Fs/Arguments.antt =====
-- pkg/core/fs/fs.go: what the functions of the module do with their arguments.
use drlee.Prelude.{ℕ, String, [], ◌∷◌, ◌≡◌, refl}
use drlee.Prelude.Result.{ok}
use drlee.Lua.{LType, string, number, function}
use drlee.Params.{check, assign_all, get, param_type, set_value}
use drlee.Fs.{mkdir, default_mode, l_mkdir, mode_call}

module _ {F : Type 0} (number_of : ℕ → F) (int_of : F → ℕ) (bad : ℕ → LType → LType → String) where
  -- A directory is made with the mode of the arguments, and without one with os.ModeDir and all
  -- permissions, when float64 keeps that number; the last argument is the callback in both.
  pub l_mkdir-mode :
      (path : String) (mode : F) (cb : ℕ)
      → int_of (number_of default_mode) ≡ default_mode
      → (l_mkdir number_of int_of bad (string path ∷ number mode ∷ function cb ∷ [])
          ≡ ok (function cb, mkdir path (int_of mode)))
        × (l_mkdir number_of int_of bad (string path ∷ function cb ∷ [])
            ≡ ok (function cb, mkdir path default_mode))
  unfolding l_mkdir mode_call check assign_all get param_type set_value
  l_mkdir-mode path mode cb e = (refl, rw (e) refl)
