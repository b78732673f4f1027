-- ===== src/Lifecycle/Pages.antt =====
-- The init function of high_low_memory.c, which takes two pages and maps them.
use kernel_modules_playgroun.Prelude.{
  false, ◌||◌, if◌then◌else◌, ◌≡◌, ◌≢◌, refl, none, some, ℤ, pos,
}
use kernel_modules_playgroun.Lifecycle.Resources.{
  page, page_mapping, holds, without_absent, Held, Load, pure, ◌>>=◌, ◌>>◌, Pointer, valid, null,
  error_pointer, is_null, acquire_pointer, release, release_if,
}

-- `kunmap` does nothing where no mapping is held; `__free_page` crashes on NULL.
abbrev pub kunmap : Pointer → Load (Unit {0})
kunmap p = release_if page_mapping

abbrev pub free_page : Pointer → Load (Unit {0})
free_page valid = release page
free_page _ = λ h. none

-- One page allocated, mapped, shown, and given back; `mapped` is what `kmap` answers. The same
-- lines stand twice, for `GFP_USER` and for `GFP_HIGHUSER`.
unfoldable pub show_page : Pointer → Pointer → Load (Unit {0})
show_page allocated mapped = do
  highmem_page ← acquire_pointer page allocated
  if is_null highmem_page then pure tt else (do acquire_pointer page_mapping mapped; pure tt)
  kunmap highmem_page
  free_page highmem_page

unfoldable pub high_low_init : Pointer → Pointer → Pointer → Pointer → Load ℤ
high_low_init user user_mapped highuser highuser_mapped = do
  show_page user user_mapped
  show_page highuser highuser_mapped
  pure (pos 0)

module _ (held : Held) (none_mapped : holds page_mapping held ≡ false) where
  show_page-valid : (mapped : Pointer) → show_page valid mapped held ≡ some (tt, held)
  unfolding show_page
  show_page-valid valid = refl
  show_page-valid null = simp (without_absent page_mapping held none_mapped)
  show_page-valid error_pointer = simp (without_absent page_mapping held none_mapped)

  show_page-null : (mapped : Pointer) → show_page null mapped held ≡ none
  unfolding show_page
  show_page-null mapped = refl

-- With no mapping of its own before, high_low_memory.c gives back both pages and both mappings
-- and returns 0, whether or not `kmap` has an address, if both pages could be allocated; if one
-- could not, it crashes.
pub high_low_init-gives_back :
    (user user_mapped highuser highuser_mapped : Pointer) (held : Held)
    → user ≢ error_pointer
    → highuser ≢ error_pointer
    → holds page_mapping held ≡ false
    → high_low_init user user_mapped highuser highuser_mapped held
      ≡ (if is_null user || is_null highuser then none else some (pos 0, held))
unfolding high_low_init
high_low_init-gives_back error_pointer m v n held p q e = absurd (p refl)
high_low_init-gives_back u m error_pointer n held p q e = absurd (q refl)
high_low_init-gives_back null m null n held p q e = rw (show_page-null held e m) refl
high_low_init-gives_back null m valid n held p q e = rw (show_page-null held e m) refl
high_low_init-gives_back valid m null n held p q e =
    rw (show_page-valid held e m, show_page-null held e n) refl
high_low_init-gives_back valid m valid n held p q e =
    rw (show_page-valid held e m, show_page-valid held e n) refl
