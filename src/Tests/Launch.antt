-- ===== src/Tests/Launch.antt =====
-- The environment of the target process, with a configuration that names all it must.
use ocolos_public.Prelude.{◌≡◌, refl, true, List, [], ◌∷◌, some, Bytes, codes, str_eq, done, Safe}
use ocolos_public.Config.{Env, ocolos_env}
use ocolos_public.Launch.{preload_entry, server_environ, has_entry, delete_preload}
use ocolos_public.Utils.{split_line}
use ocolos_public.Tests.Config.{full_lines, full_lines-IsLine, full_lines-IsComplete, nowhere}
use ocolos_public.Config.Settings.{file_lines}
use ocolos_public.Launch.Preload.{delete_preload-server_environ}

abbrev one_entry : List Bytes
one_entry = codes "HOME=/root" ∷ []

delete_preload-server_environ_example :
    Safe ⊥
      (λ e.
        (delete_preload true (server_environ e one_entry) ≡ done (server_environ e one_entry))
        × (has_entry (preload_entry e) (server_environ e one_entry) ≡ true))
      (ocolos_env nowhere (some (codes "/home/ocolos")) (some (file_lines full_lines)))
unfolding has_entry str_eq
delete_preload-server_environ_example =
    delete_preload-server_environ nowhere (codes "/home/ocolos") full_lines one_entry true (λ e. cc)
      full_lines-IsLine full_lines-IsComplete refl

-- With this configuration the constructor comes to its end.
full_config_env :
    (e : Env) × (ocolos_env nowhere (some (codes "/home/ocolos")) (some (file_lines full_lines))
      ≡ done e)
    × (preload_entry e ≡ codes "LD_PRELOAD=/o/lib/replace_function.so")
unfolding ocolos_env str_eq split_line
full_config_env = (_, refl, refl)
