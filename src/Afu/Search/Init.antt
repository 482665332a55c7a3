-- ===== src/Afu/Search/Init.antt =====
-- `libocxl_init` takes effect once.
use libocxl.Base.{◌≡◌, refl, true, inl, inr, Bool-cases}
use libocxl.Types.{Globals}
use libocxl.Kernel.{Kernel}
use libocxl.Afu.Search.{libocxl_init}

inited : ⦃k : Kernel⦄ (g : Globals) → (libocxl_init g).libocxl_inited ≡ true
unfolding libocxl_init
inited g = elim (Bool-cases g.libocxl_inited) [ inl e ↦ rw e refl | inr e ↦ rw e refl ]

settled : (k : Kernel) (g : Globals) → g.libocxl_inited ≡ true → libocxl_init ⦃k = k⦄ g ≡ g
unfolding libocxl_init
settled k g e = rw e

-- A second initialisation changes nothing, even if the environment has changed since the first.
pub init-once :
    (k k' : Kernel) (g : Globals)
    → libocxl_init ⦃k = k'⦄ (libocxl_init ⦃k = k⦄ g) ≡ libocxl_init ⦃k = k⦄ g
init-once k k' g = settled k' (libocxl_init ⦃k = k⦄ g) (inited ⦃k = k⦄ g)
