-- ===== src/Plugin.antt =====
-- Source/FF_HTTP_LWS/Public/FF_HTTP_LWS.h and Private/FF_HTTP_LWS.cpp: the plugin's module, which
-- loads the two pthreads libraries. It is built for Windows, so `_WIN64` is defined.
use ff_http_lws.Base.{
  ℕ, ◌≡◌, Option, none, some, List, [], ◌∷◌, FString, codes, arith, Option-cases, inl, inr,
}

-- `FFF_HTTP_LWSModule`
pub record FffHttpLwsModule : Type 0 where
  pub handle_pthreads_vc2 : Option ℕ
  pub handle_pthreads_gc2 : Option ℕ

-- What the engine gives to the module.
pub record Platform : Type 0 where
  -- `FindPlugin("FF_HTTP_LWS")->GetBaseDir()`
  pub base_plugin_dir : FString
  -- `FPaths::Combine`
  pub combine : FString → FString → FString
  -- `FPlatformProcess::GetDllHandle`
  pub get_dll_handle : FString → Option ℕ
  -- `GetLastError`
  pub get_last_error : ℕ

-- A log entry of the verbosity Fatal ends the process; it names the library and the error.
pub data Startup : Type 0 where
  started : FffHttpLwsModule → Startup
  fatal : FString → ℕ → Startup

abbrev pub vc2_name : FString
vc2_name = codes "pthreadVC2.dll"

abbrev pub gc2_name : FString
gc2_name = codes "pthreadGC2.dll"

abbrev pub dll_vc2 : Platform → FString
dll_vc2 p = p.combine p.base_plugin_dir (codes "Source/Pthreads/Win64/lib/pthreadVC2.dll")

abbrev pub dll_gc2 : Platform → FString
dll_gc2 p = p.combine p.base_plugin_dir (codes "Source/Pthreads/Win64/lib/pthreadGC2.dll")

-- `StartupModule`
unfoldable pub startup_module : Platform → Startup
startup_module p =
    let m : FffHttpLwsModule = record {
      handle_pthreads_vc2 = p.get_dll_handle (dll_vc2 p);
      handle_pthreads_gc2 = p.get_dll_handle (dll_gc2 p);
    } in
    elim m.handle_pthreads_vc2 [
      | none ↦ fatal vc2_name p.get_last_error
      | some _ ↦ elim m.handle_pthreads_gc2 [
        | none ↦ fatal gc2_name p.get_last_error
        | some _ ↦ started m
      ]
    ]

-- `ShutdownModule`, with the handles passed to `FreeDllHandle`.
pub shutdown_module : FffHttpLwsModule → FffHttpLwsModule × List (Option ℕ)
shutdown_module m = (
  record { handle_pthreads_vc2 = none; handle_pthreads_gc2 = none },
  m.handle_pthreads_vc2 ∷ m.handle_pthreads_gc2 ∷ [],
)

-- When the plugin has started, both libraries are loaded; a shutdown frees the two handles that were
-- opened, in that order, each once, and keeps none.
pub startup_module_lem :
    (p : Platform) (m : FffHttpLwsModule)
    → startup_module p ≡ started m
    → (v : ℕ) × (w : ℕ) × (p.get_dll_handle (dll_vc2 p) ≡ some v)
      × (p.get_dll_handle (dll_gc2 p) ≡ some w)
      × (shutdown_module m ≡ (
        record { handle_pthreads_vc2 = none; handle_pthreads_gc2 = none },
        some v ∷ some w ∷ [],
      ))
unfolding startup_module shutdown_module
startup_module_lem p m loaded = elim (Option-cases (p.get_dll_handle (dll_vc2 p))) [
  | inl missing ↦ absurd (ground (arith, missing))
  | inr (v, first) ↦ elim (Option-cases (p.get_dll_handle (dll_gc2 p))) [
    | inl missing ↦ absurd (ground (arith, first, missing))
    | inr (w, second) ↦ (v, w, first, second, ground (arith, first, second))
  ]
]
