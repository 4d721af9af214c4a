-- ===== src/Thread/Mounts.antt =====
-- What `HTTP_Start` hands to `lws_create_context`.
use ff_http_lws.Base.{
  ℕ, zero, suc, ◌≤◌, ◌<◌, ◌≡◌, ◌≢◌, refl, false, Option, none, some, List, [], ◌∷◌, codes, strlen,
  strlen-length, Plain, length, is_empty, arith, ltb, ◌==◌, Bool-cases, inl, inr,
}
use ff_http_lws.Engine.{Unreal, UnrealDocs, Ascii}
use ff_http_lws.Lws.Reasons.{mpro_file, mpro_callback}
use ff_http_lws.Lws.Structs.{
  MountRef, to_static, to_dynamic, LwsHttpMount, LwsProtocols, to_callback_http,
  LwsContextCreationInfo,
}
use ff_http_lws.Thread.Address.{wcstombs_whole}
use ff_http_lws.Thread.{ServerSettings, HttpThread, Uninit, byte, construct, http_start}

-- The mount behind an address.
abbrev pub mount_at : HttpThread → MountRef → LwsHttpMount
mount_at t to_static = t.mount_static
mount_at t to_dynamic = t.mount_dynamic

-- The mounts that a walk along `mount_next` visits; `none` if it does not end within the fuel.
abbrev pub walk : ℕ → HttpThread → Option MountRef → Option (List LwsHttpMount)
walk fuel t none = some []
walk zero t (some ref) = none
walk (suc fuel) t (some ref) =
    let m = mount_at t ref in
    elim (walk fuel t m.mount_next) [ none ↦ none | some rest ↦ some (m ∷ rest) ]

module _ (ue : Unreal) (s : ServerSettings) (memory : Uninit) (self : ℕ) (runnable : Option ℕ)
    (fresh : LwsProtocols × LwsProtocols) (create : LwsContextCreationInfo → Option ℕ) where
  -- the thread object once it has started
  abbrev pub started : HttpThread
  started = http_start (construct ue s memory self runnable) fresh create

  -- The context is created from the settings: the walk along the mounts visits the static mount,
  -- which serves files from the root path, and then the dynamic one, which is handled by the
  -- protocol "http", and ends; the protocol array has the callback under that name and then a
  -- null name, and the port, the user pointer and the 404 page are those of the server.
  pub http_start_lem :
      (walk 2 started started.info.mounts
        ≡ some (started.mount_static ∷ started.mount_dynamic ∷ []))
      × (started.mount_static.origin_protocol ≡ mpro_file)
      × (started.mount_static.origin ≡ started.origin.data_points)
      × (started.mount_dynamic.origin_protocol ≡ mpro_callback)
      × (started.mount_dynamic.mountpoint ≡ started.api_uri.data_points)
      × (started.mount_dynamic.protocol ≡ some (codes "http"))
      × ((p : LwsProtocols) × (q : LwsProtocols) × (started.info.protocols ≡ some (p, q))
          × (p.name ≡ started.mount_dynamic.protocol)
          × (p.callback ≡ some to_callback_http)
          × (q.name ≡ none))
      × (started.info.port ≡ s.port_http)
      × (started.info.user ≡ some self)
      × (started.info.error_document_404 ≡ started.page_error.data_points)
      × (started.context ≡ create started.info)
  unfolding http_start construct
  http_start_lem =
      (refl, refl, refl, refl, refl, refl, (_, _, refl, refl, refl, refl), refl, refl, refl, refl)

  -- Starting again from a thread object keeps what the constructor set, so a restart with the same
  -- memory and the same library gives the same object.
  pub http_start_idem : http_start started fresh create ≡ started
  unfolding http_start
  http_start_idem = refl

module _ {ue : Unreal} (e : UnrealDocs ue) (s : ServerSettings) (memory : Uninit) (self : ℕ)
    (runnable : Option ℕ) (fresh : LwsProtocols × LwsProtocols)
    (create : LwsContextCreationInfo → Option ℕ) where
  abbrev dynamic : LwsHttpMount
  dynamic = (started ue s memory self runnable fresh create).mount_dynamic

  module _ (full : is_empty s.api_uri ≡ false) (ascii : Ascii s.api_uri)
      (plain : Plain s.api_uri) where
    -- Shorter than 256, the length that goes with the mount is exact.
    dynamic_mount_short :
        length s.api_uri < 256
        → (dynamic.mountpoint ≡ some s.api_uri) × (dynamic.mountpoint_len ≡ strlen s.api_uri)
    unfolding http_start construct
    dynamic_mount_short small = (
      rw (full, wcstombs_whole e s.api_uri ascii plain),
      rw full (omega (arith, strlen-length s.api_uri plain, small)),
    )

    -- From 256 characters on, the mount still has the whole URI, but not its length: that is stored
    -- in an `unsigned char`.
    dynamic_mount_long :
        256 ≤ length s.api_uri
        → (dynamic.mountpoint ≡ some s.api_uri) × (dynamic.mountpoint_len ≢ strlen s.api_uri)
    unfolding http_start construct
    dynamic_mount_long big = (
      rw (full, wcstombs_whole e s.api_uri ascii plain),
      λ same. absurd (omega (arith, strlen-length s.api_uri plain, big, go same)),
    )
      where
        go : dynamic.mountpoint_len ≡ strlen s.api_uri → byte (length s.api_uri) ≡ strlen s.api_uri
        go same = rw full at same

    -- For an ASCII API URI that is not empty and has no NUL, the dynamic mount stands under exactly
    -- that URI, whatever its length; the length that goes with it is right below 256 characters and
    -- wrong from 256 on.
    pub dynamic_mount_lem :
        (dynamic.mountpoint ≡ some s.api_uri)
        × ((dynamic.mountpoint_len == strlen s.api_uri) ≡ ltb (length s.api_uri) 256)
    dynamic_mount_lem = elim (Bool-cases (ltb (length s.api_uri) 256)) [
      | inl small ↦
          let (point, exact) = dynamic_mount_short (ground arith) in (point, ground (arith, exact))
      | inr big ↦
          let (point, wrong) = dynamic_mount_long (ground arith) in (point, ground (arith, wrong))
    ]
