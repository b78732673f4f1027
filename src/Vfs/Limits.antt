-- ===== src/Vfs/Limits.antt =====
-- The address limit of vfs_basic.c, and its module's exit.
use kernel_modules_playgroun.Prelude.{
  ℕ, ◌≡◌, refl, ◌⊎◌, inl, inr, ==_refl, Option, none, some, ◌∷◌, ℤ, pos,
}
use kernel_modules_playgroun.Vfs.Driver.{
  Segment, kernel_ds, Vfs, Opened, file_at, error, file_open, file_close, file_read, file_init,
  file_exit,
}

-- How the exit ends that follows an init: in a crash if the file could not be opened, else with the
-- same files open as before the init, and under the same limit.
abbrev pub Exits : Opened → Vfs → Option Vfs → Type 0
Exits (error err) s r = r ≡ none
Exits (file_at f) s r = (u : Vfs) × (r ≡ some u) × (u.held ≡ s.held) × (u.limit ≡ s.limit)

Opened-cases : (r : Opened) → ((f : ℕ) × (r ≡ file_at f)) ⊎ ((err : ℕ) × (r ≡ error err))
Opened-cases (file_at f) = inl (f, refl)
Opened-cases (error err) = inr (err, refl)

module _ (filp_open : Segment → Opened) (vfs_read : Segment → ℤ) (s : Vfs) where
  file_open-file_at :
      (f : ℕ)
      → filp_open kernel_ds ≡ file_at f
      → file_open filp_open s ≡ (record s { held = f ∷ s.held }, some f)
  unfolding file_open
  file_open-file_at f e = rw (file_open, e) refl

  file_open-error : (err : ℕ) → filp_open kernel_ds ≡ error err → file_open filp_open s ≡ (s, none)
  unfolding file_open
  file_open-error err e = rw (file_open, e) refl

  file_init-file_at :
      (f : ℕ)
      → filp_open kernel_ds ≡ file_at f
      → file_init filp_open vfs_read s ≡ (record s { open_file = some f; held = f ∷ s.held }, pos 0)
  unfolding file_init file_read
  file_init-file_at f e = rw (file_init, file_open-file_at f e) (rw (file_open-file_at f e) refl)

  file_init-error :
      (err : ℕ)
      → filp_open kernel_ds ≡ error err
      → file_init filp_open vfs_read s ≡ (record s { open_file = none }, pos 0)
  unfolding file_init
  file_init-error err e = rw (file_init, file_open-error err e) (rw (file_open-error err e) refl)

-- The init answers 0 whether or not it could open the file, and leaves the address limit as it was;
-- the exit that follows closes the file, or crashes if there is none.
pub file_exit-file_init :
    (filp_open : Segment → Opened) (vfs_read : Segment → ℤ) (s : Vfs)
    → let (t, ret) = file_init filp_open vfs_read s in
      (ret ≡ pos 0) × (t.limit ≡ s.limit) × Exits (filp_open kernel_ds) s (file_exit t)
unfolding file_exit file_close
file_exit-file_init filp_open vfs_read s = elim (Opened-cases (filp_open kernel_ds)) [
  | inl (f, e) ↦
      rw (file_init-file_at filp_open vfs_read s f e, e)
        (refl, refl, (record s { open_file = some f }, rw ==_refl refl, refl, refl))
  | inr (err, e) ↦ rw (file_init-error filp_open vfs_read s err e, e) (refl, refl, refl)
]
