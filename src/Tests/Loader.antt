-- ===== src/Tests/Loader.antt =====
-- kernel/module_loader.c at fixed inputs.
use dionnex.Base.{
  ◌+◌, ◌%◌, ◌<◌, ◌≡◌, refl, ◌⊎◌, inr, false, some, [], ◌∷◌, if◌then◌else◌, ◌==◌, length, arith,
}
use dionnex.Base.Int.{pos, negsuc}
use dionnex.Machine.{Memory, half, word}
use dionnex.Object.{e_shnum, section_headers, module_calc_size, copy_sections, relocate}
use dionnex.Object.Sizes.{sizes_from}
use dionnex.Object.Copies.{total_of, copy_sections-module_calc_size}
use dionnex.Object.Relocate.{relocate-word}
use dionnex.Strings.Number.{u32}
use dionnex.Loader.{
  LoadedModule, Loader, is_loaded, module_load_binary, module_unload_binary,
  module_get_loaded_count, module_get_proc_info,
}
use dionnex.Loader.Outcome.{IsLoader, LoadRefused, Loaded, module_load_binary-Loaded}
use dionnex.Loader.Unload.{module_unload_binary-IsLoader}
use dionnex.Loader.Info.{lines_within, module_get_proc_info-lines_within}

-- A file at 100 whose one section, of 5 bytes, is allocated.
abbrev object : Memory
object a =
    if a == 132
    then 52
    else if a == 148
    then 1
    else if a == 160
    then 2
    else if a == 172
    then 5
    else 0

object_headers : section_headers object 100 ≡ 152
unfolding word half
object_headers = refl

object_count : e_shnum object 100 ≡ 1
unfolding half
object_count = refl

object_total : total_of object 100 ≡ 8
unfolding word half sizes_from
object_total = refl

copy_sections-module_calc_size_example :
    ((copy_sections (e_shnum object 100) object 100 (section_headers object 100) 1000 0 0).0 2000
      ≡ object 2000)
    × ((copy_sections (e_shnum object 100) object 100 (section_headers object 100) 1000 0 0).1
        ≡ module_calc_size object 100)
    × (module_calc_size object 100 ≡ total_of object 100)
copy_sections-module_calc_size_example =
    copy_sections-module_calc_size object 100 1000 2000
      (omega (arith, object_headers, object_count)) (omega (arith, object_total))
      (inr (omega (arith, object_headers, object_count))) (inr (omega (arith, object_total)))
      (inr (omega (arith, object_headers, object_count)))

relocate-word_example :
    (word (relocate object 1 500 600) 600 ≡ u32 (word object 600 + 500))
    × (u32 (600 + word (relocate object 2 500 600) 600) ≡ u32 (500 + word object 600))
    × (half (relocate object 4 500 600) 600 ≡ (half object 600 + 500) % 65536)
    × (relocate object 5 500 600 600 ≡ (object 600 + 500) % 256)
    × (relocate object 1 500 600 700 ≡ object 700)
relocate-word_example =
    relocate-word object 1 500 600 700 (omega arith) (omega arith) (λ e. absurd (omega (arith, e)))
      (λ e. absurd (omega (arith, e))) (λ e. absurd (omega (arith, e)))
      (λ e. absurd (omega (arith, e)))

abbrev driver : LoadedModule
driver = record {
  self = 64;
  name = b'd' ∷ [];
  version = 1;
  loaded = 1;
  base_addr = 4096;
  total_size = 1024;
  init_func = 4100;
  cleanup_func = 0;
}

abbrev with_driver : Loader
with_driver = record { mem = object; module_list = driver ∷ []; calls = [] }

with_driver-IsLoader : IsLoader with_driver
unfolding is_loaded
with_driver-IsLoader = record {
  unique = (refl, tt);
  sound =
      ((λ e. absurd (omega (arith, e))), (λ e. absurd (omega (arith, e))), refl, omega arith, tt);
}

module_load_binary-Loaded_example :
    LoadRefused with_driver 8192
      (module_load_binary [] with_driver (some (b'e' ∷ [])) 100 200 8192 128)
    ⊎ Loaded with_driver
        (b'e' ∷ [])
        8192
        128
        (module_load_binary [] with_driver (some (b'e' ∷ [])) 100 200 8192 128)
module_load_binary-Loaded_example =
    module_load_binary-Loaded [] with_driver (b'e' ∷ []) 100 200 8192 128 with_driver-IsLoader
      (omega arith)

module_unload_binary-IsLoader_example :
    IsLoader (module_unload_binary with_driver (some (b'd' ∷ []))).0
    × (is_loaded (module_unload_binary with_driver (some (b'd' ∷ []))).0.module_list (b'd' ∷ [])
        ≡ false)
    × ((module_unload_binary with_driver (some (b'd' ∷ []))).1
        ≡ (if is_loaded with_driver.module_list (b'd' ∷ []) then pos 0 else negsuc 0))
    × (module_get_loaded_count with_driver
        ≡ u32 (
            module_get_loaded_count (module_unload_binary with_driver (some (b'd' ∷ []))).0
            + (if is_loaded with_driver.module_list (b'd' ∷ []) then 1 else 0)))
module_unload_binary-IsLoader_example =
    module_unload_binary-IsLoader with_driver (b'd' ∷ []) with_driver-IsLoader

module_get_proc_info-lines_within_example :
    (module_get_proc_info with_driver 512 ≡ some (lines_within with_driver.module_list [] 512))
    × (length (lines_within with_driver.module_list [] 512) < 512)
module_get_proc_info-lines_within_example =
    module_get_proc_info-lines_within with_driver 512 (omega arith, omega arith, omega arith, tt)
      (omega arith) (omega arith)
