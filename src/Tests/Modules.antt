-- ===== src/Tests/Modules.antt =====
-- kernel/module.c at fixed inputs.
use dionnex.Base.{◌⊎◌, refl, true, none, some, [], ◌∷◌}
use dionnex.Base.Int.{pos}
use dionnex.Modules.{Module, Modules, find_module, module_register}
use dionnex.Modules.Registry.{IsRegistry, Refused, Entered, module_register-Entered}

abbrev hello : Module
hello = record { name = b'h' ∷ (b'i' ∷ []); init = some (pos 0); cleanup = true; state = 0 }

abbrev counter : Module
counter = record { name = b'c' ∷ []; init = none; cleanup = true; state = 1 }

abbrev one_loaded : Modules
one_loaded = record { chain = counter ∷ []; module_count = 1; calls = [] }

one_loaded-IsRegistry : IsRegistry one_loaded
unfolding find_module
one_loaded-IsRegistry = record { unique = (refl, tt); all_loaded = (refl, tt); count = refl }

module_register-Entered_example :
    Refused one_loaded (module_register one_loaded (some hello))
    ⊎ Entered one_loaded hello (module_register one_loaded (some hello))
module_register-Entered_example = module_register-Entered one_loaded hello one_loaded-IsRegistry
