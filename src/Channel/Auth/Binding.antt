-- ===== src/Channel/Auth/Binding.antt =====
-- What a frame of channel/src/auth.rs is bound to.
use signet_drive.Base.{◌^◌, ◌<◌, ◌≡◌, refl, ap, arith, Bytes, some, []}
use signet_drive.Base.{
  ◌++◌, length, take, drop, ◌⊎◌, inl, inr, length-append, take-append, drop-append,
}
use signet_drive.Base.{append_inj, append_assoc, Bytes-cases, sym, ◌∙◌}
use signet_drive.Base.{append-nil}
use signet_drive.Base.Results.{ok, map_err, Result-cases}
use signet_drive.Base.BigEndian.{field_inj, be}
use signet_drive.Crypto.{AesGcm, AesGcmLaws, Forgery, seal, open_sealed, open-seal}
use signet_drive.Crypto.{open-other_aad}
use signet_drive.Channel.{auth}
use signet_drive.Channel.Auth.{push_lp, request_aad, response_aad, frame_nonce, seal_with}
use signet_drive.Channel.Auth.{open_with}
use signet_drive.Channel.Auth.{domain_request, domain_response}

-- The associated data, bracketed to the right.
lp : Bytes → Bytes → Bytes
lp field rest = be 4 (length field) ++ (field ++ rest)

push_lp-lp : (buf field rest : Bytes) → push_lp buf field ++ rest ≡ buf ++ lp field rest
unfolding push_lp lp
push_lp-lp buf field rest =
    append_assoc buf (be 4 (length field) ++ field) rest
    ∙ ap (λ t. buf ++ t) (append_assoc (be 4 (length field)) field rest)

version : Bytes
version = be 2 1

request_aad-lp : (c r : Bytes) → request_aad c r ≡ lp domain_request (version ++ lp c (lp r []))
unfolding request_aad version
request_aad-lp c r =
    let base : Bytes = push_lp [] domain_request ++ be 2 1 in
    sym (append-nil (push_lp (push_lp base c) r))
    ∙ push_lp-lp (push_lp base c) r []
    ∙ push_lp-lp base c (lp r [])
    ∙ append_assoc (push_lp [] domain_request) (be 2 1) (lp c (lp r []))
    ∙ push_lp-lp [] domain_request (be 2 1 ++ lp c (lp r []))

response_aad-lp :
    (c r n : Bytes) → response_aad c r n ≡ lp domain_response (version ++ lp c (lp r (lp n [])))
unfolding response_aad version
response_aad-lp c r n =
    let base : Bytes = push_lp [] domain_response ++ be 2 1 in
    sym (append-nil (push_lp (push_lp (push_lp base c) r) n))
    ∙ push_lp-lp (push_lp (push_lp base c) r) n []
    ∙ push_lp-lp (push_lp base c) r (lp n [])
    ∙ push_lp-lp base c (lp r (lp n []))
    ∙ append_assoc (push_lp [] domain_response) (be 2 1) (lp c (lp r (lp n [])))
    ∙ push_lp-lp [] domain_response (be 2 1 ++ lp c (lp r (lp n [])))

-- A field of less than 2^32 bytes.
abbrev pub IsShort : Bytes → Type 0
IsShort x = length x < 2 ^ 32

lp_inj : (x y : Bytes) {u v : Bytes} → IsShort x → IsShort y → lp x u ≡ lp y v → (x ≡ y) × (u ≡ v)
unfolding lp
lp_inj x y hx hy e = field_inj x y hx hy e

version_inj : {u v : Bytes} → version ++ u ≡ version ++ v → u ≡ v
version_inj e = (append_inj version version refl e).1

pub request_aad_inj :
    (c c' r r' : Bytes)
    → IsShort c
    → IsShort c'
    → IsShort r
    → IsShort r'
    → request_aad c r ≡ request_aad c' r'
    → (c ≡ c') × (r ≡ r')
request_aad_inj c c' r r' hc hc' hr hr' e =
    let (_, q) =
      lp_inj domain_request domain_request (omega arith) (omega arith)
        (sym (request_aad-lp c r) ∙ e ∙ request_aad-lp c' r') in
    let (p, s) = lp_inj c c' hc hc' (version_inj q) in let (t, _) = lp_inj r r' hr hr' s in (p, t)

pub response_aad_inj :
    (c c' r r' n n' : Bytes)
    → IsShort c
    → IsShort c'
    → IsShort r
    → IsShort r'
    → IsShort n
    → IsShort n'
    → response_aad c r n ≡ response_aad c' r' n'
    → (c ≡ c') × (r ≡ r') × (n ≡ n')
response_aad_inj c c' r r' n n' hc hc' hr hr' hn hn' e =
    let (_, q) =
      lp_inj domain_response domain_response (omega arith) (omega arith)
        (sym (response_aad-lp c r n) ∙ e ∙ response_aad-lp c' r' n') in
    let (p, s) = lp_inj c c' hc hc' (version_inj q) in
    let (t, z) = lp_inj r r' hr hr' s in let (w, _) = lp_inj n n' hn hn' z in (p, t, w)

-- The associated data of a request is never that of a response, whatever their fields.
pub request_aad-ne-response_aad : (c r c' r' n : Bytes) → request_aad c r ≡ response_aad c' r' n → ⊥
request_aad-ne-response_aad c r c' r' n e =
    let (p, _) =
      lp_inj domain_request domain_response (omega arith) (omega arith)
        (sym (request_aad-lp c r) ∙ e ∙ response_aad-lp c' r' n) in
    absurd (omega (arith, ap length p))

module _ (gcm : AesGcm) (laws : AesGcmLaws gcm) where
  -- A sealed frame is the nonce, then a sealing under it.
  pub record Framed (nonce key aad body frame : Bytes) : Type 0 where
    pub ct : Bytes
    pub sealed : seal gcm key nonce body aad ≡ ok ct
    pub framed : frame ≡ nonce ++ ct

  pub seal_with-Framed :
      (nonce key aad body : Bytes) {frame : Bytes}
      → seal_with gcm nonce key aad body ≡ some frame
      → Framed nonce key aad body frame
  unfolding seal_with
  seal_with-Framed nonce key aad body e = elim (Result-cases (seal gcm key nonce body aad)) [
    | inl (ct, sealed) ↦ record { ct = ct; sealed = sealed; framed = ground arith }
    | inr (x, failed) ↦ absurd (ground arith)
  ]

  open_with-framed :
      (nonce key aad ct : Bytes)
      → length nonce ≡ 12
      → open_with gcm key aad (nonce ++ ct) ≡ map_err (λ _. auth) (open_sealed gcm key nonce ct aad)
  unfolding open_with
  open_with-framed nonce key aad ct hn =
      let front : take 12 (nonce ++ ct) ≡ nonce = take-append nonce ct 12 hn in
      let back : drop 12 (nonce ++ ct) ≡ ct = drop-append nonce ct 12 hn in
      rw (front, back) (ground (arith, length-append nonce ct))

  pub frame_nonce-framed :
      (nonce ct : Bytes) → length nonce ≡ 12 → frame_nonce (nonce ++ ct) ≡ ok nonce
  unfolding frame_nonce
  frame_nonce-framed nonce ct hn =
      rw (take-append nonce ct 12 hn) (ground (arith, length-append nonce ct))

  pub open_with-seal_with :
      (nonce key aad body : Bytes) {frame : Bytes}
      → length nonce ≡ 12
      → seal_with gcm nonce key aad body ≡ some frame
      → open_with gcm key aad frame ≡ ok body
  open_with-seal_with nonce key aad body hn e =
      let f : Framed nonce key aad body _ = seal_with-Framed nonce key aad body e in
      rw (f.framed) (
        open_with-framed nonce key aad f.ct hn
        ∙ ap (map_err (λ _. auth)) (open-seal gcm laws key nonce body aad f.sealed))

  -- A frame opens under its own associated data to its own body, or it is a forgery.
  pub open_with-binding :
      (nonce key aad aad' body body' : Bytes) {frame : Bytes}
      → length nonce ≡ 12
      → seal_with gcm nonce key aad body ≡ some frame
      → open_with gcm key aad' frame ≡ ok body'
      → ((aad ≡ aad') × (body ≡ body')) ⊎ Forgery gcm
  open_with-binding nonce key aad aad' body body' hn e o =
      let f : Framed nonce key aad body _ = seal_with-Framed nonce key aad body e in
      let opened = sym (open_with-framed nonce key aad' f.ct hn) ∙ rw (f.framed) at o in
      elim (Bytes-cases aad aad') [
        | inl same ↦
            let direct = open-seal gcm laws key nonce body aad f.sealed in
            inl (same, ground (arith, rw same at direct))
        | inr differ ↦ inr (
            open-other_aad gcm laws key nonce body aad aad' {msg' = body'} differ f.sealed
              (ground arith))
      ]
