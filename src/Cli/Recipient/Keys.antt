-- ===== src/Cli/Recipient/Keys.antt =====
-- Which keys of the server cli/src/recipient_verify.rs verifies signatures under: those that the
-- server-info publishes.
use Prim.Native.String.{String}
use signet_drive.Base.{◌≡◌, refl, ap, arith, ◌∙◌, Bytes, List, [], ◌∷◌, Option, none, some}
use signet_drive.Base.{true, bytes_eq→eq, Bool-cases, ◌⊎◌, inl, inr}
use signet_drive.Base.Results.{Result, ok, ◌>>=◌, bind_ok, ok_inj, some_inj, ok_or_ok, ok_or}
use signet_drive.Cli.{CliError, invalid_data, str_at, and_then}
use signet_drive.Cli.Recipient.{Host}
use signet_drive.Cli.Recipient.Words.{attestation_verification_pq}
use signet_drive.Cli.Recipient.Receipt.{is_str}
use signet_drive.Cli.Recipient.Trust.{
  ServerTrust, Request, public_key_of, find_in_keys, find_in_field,
}
use signet_drive.Cli.Recipient.Trust.{
  find_key_by_id, first_pq_key, active_pq_key, or_fresh, key_by_id,
}
use signet_drive.Cli.Recipient.Trust.{server_info_pq, pq_key_for}

pub is_str-some : (o : Option Bytes) (v : Bytes) → is_str o v ≡ true → o ≡ some v
is_str-some none v e = absurd (ground arith)
is_str-some (some s) v e = ap some (bytes_eq→eq s v e)

-- One of the list.
abbrev pub Among : {A : Type 0} → A → List A → Type 0
Among a [] = ⊥
Among a (x ∷ xs) = (a ≡ x) ⊎ Among a xs

module _ {J : Type 0} (host : Host J) where
  -- An entry of a list of keys with a property, and the key that it holds.
  pub record Entry (entries : List J) (Says : J → Type 0) (vk : Bytes) : Type 0 where
    pub entry : J
    pub among : Among entry entries
    pub says : Says entry
    pub text : Bytes
    pub holds : str_at host.reader entry "public_key" ≡ some text
    pub decoded : host.decode64 text ≡ some vk

  -- A key that a field of a server-info lists, in an entry with a property.
  pub record Published (info : J) (field : String) (Says : J → Type 0) (vk : Bytes) : Type 0 where
    pub entries : List J
    pub listed : and_then (host.reader.get info field) host.reader.as_array ≡ some entries
    pub entry : Entry entries Says vk

  abbrev pub HasId : Bytes → J → Type 0
  HasId key_id entry = str_at host.reader entry "key_id" ≡ some key_id

  abbrev pub HasPurpose : Bytes → J → Type 0
  HasPurpose purpose entry = str_at host.reader entry "purpose" ≡ some purpose

  -- A server-info's key of that id, current or retired.
  abbrev pub KeyIn : J → Bytes → Bytes → Type 0
  KeyIn info key_id vk =
      Published info "current_signing_keys" (HasId key_id) vk
      ⊎ Published info "retired_signing_keys" (HasId key_id) vk

  entry_read :
      (entry : J) {vk : Bytes}
      → public_key_of host entry ≡ ok vk
      → (text : Bytes) × (str_at host.reader entry "public_key" ≡ some text)
        × (host.decode64 text ≡ some vk)
  entry_read entry e =
      let (text, h₀, e₀) =
        bind_ok
          (ok_or (str_at host.reader entry "public_key")
            (invalid_data "server-info key missing public_key"))
          _ e in
      (text, ok_or_ok _ _ h₀, ok_or_ok _ _ e₀)

  later :
      {entries : List J} {Says : J → Type 0} {vk : Bytes} (x : J)
      → Entry entries Says vk
      → Entry (x ∷ entries) Says vk
  later x e = record {
    entry = e.entry;
    among = inr (e.among);
    says = e.says;
    text = e.text;
    holds = e.holds;
    decoded = e.decoded;
  }

  find_in_keys-Entry :
      (key_id : Bytes) (entries : List J) (after : Result CliError (Option Bytes)) {vk : Bytes}
      → find_in_keys host key_id entries after ≡ ok (some vk)
      → Entry entries (HasId key_id) vk ⊎ (after ≡ ok (some vk))
  find_in_keys-Entry key_id [] after e = inr e
  find_in_keys-Entry key_id (x ∷ rest) after {vk} e =
      elim (Bool-cases (is_str (str_at host.reader x "key_id") key_id)) [
        | inl named ↦
            let taken : (public_key_of host x >>= λ k. ok (some k)) ≡ ok (some vk) = ground arith in
            let (k, h₀, e₀) = bind_ok (public_key_of host x) _ taken in
            let same : k ≡ vk = some_inj (ok_inj e₀) in
            let (text, holds, decoded) = entry_read x h₀ in
            inl (record {
              entry = x;
              among = inl refl;
              says = is_str-some (str_at host.reader x "key_id") key_id named;
              text = text;
              holds = holds;
              decoded = decoded ∙ ap some same;
            })
        | inr other ↦
            let more : find_in_keys host key_id rest after ≡ ok (some vk) = ground arith in
            elim (find_in_keys-Entry key_id rest after more) [
              | inl found ↦ inl (later x found)
              | inr none_here ↦ inr none_here
            ]
      ]

  find_in_field-Published :
      (info : J) (field : String) (key_id : Bytes) (after : Result CliError (Option Bytes))
      {vk : Bytes} (keys : Option (List J))
      → and_then (host.reader.get info field) host.reader.as_array ≡ keys
      → find_in_field host key_id keys after ≡ ok (some vk)
      → Published info field (HasId key_id) vk ⊎ (after ≡ ok (some vk))
  find_in_field-Published info field key_id after none listed e = inr e
  find_in_field-Published info field key_id after (some entries) listed e =
      elim (find_in_keys-Entry key_id entries after e) [
        | inl entry ↦ inl (record { entries = entries; listed = listed; entry = entry })
        | inr rest ↦ inr rest
      ]

  find_key_by_id-KeyIn :
      (info : J) (key_id : Bytes) {vk : Bytes}
      → find_key_by_id host info key_id ≡ ok (some vk)
      → KeyIn info key_id vk
  unfolding find_key_by_id
  find_key_by_id-KeyIn info key_id e =
      elim (find_in_field-Published info "current_signing_keys" key_id _ _ refl e) [
        | inl current ↦ inl current
        | inr rest ↦
            elim (find_in_field-Published info "retired_signing_keys" key_id (ok none) _ refl
              rest) [ inl retired ↦ inr retired | inr nowhere ↦ absurd (ground arith) ]
      ]

  first_pq_key-Entry :
      (entries : List J) {vk : Bytes}
      → first_pq_key host entries ≡ ok vk
      → Entry entries (HasPurpose attestation_verification_pq) vk
  first_pq_key-Entry [] e = absurd (ground arith)
  first_pq_key-Entry (x ∷ rest) {vk} e =
      elim (Bool-cases (is_str (str_at host.reader x "purpose") attestation_verification_pq)) [
        | inl named ↦
            let taken : public_key_of host x ≡ ok vk = ground arith in
            let (text, holds, decoded) = entry_read x taken in
            record {
              entry = x;
              among = inl refl;
              says = is_str-some (str_at host.reader x "purpose") attestation_verification_pq named;
              text = text;
              holds = holds;
              decoded = decoded;
            }
        | inr other ↦
            let more : first_pq_key host rest ≡ ok vk = ground arith in
            later x (first_pq_key-Entry rest more)
      ]

  -- The server's current key for the ML-DSA-87 half.
  abbrev pub ActivePqKey : ServerTrust J → Bytes → Type 0
  ActivePqKey trust vk =
      Published (trust.info) "current_signing_keys" (HasPurpose attestation_verification_pq) vk

  pub active_pq_key-Active :
      (trust : ServerTrust J) {vk : Bytes} → active_pq_key host trust ≡ ok vk → ActivePqKey trust vk
  unfolding active_pq_key
  active_pq_key-Active trust e =
      let (entries, h₀, e₀) =
        bind_ok
          (ok_or
            (and_then (host.reader.get (trust.info) "current_signing_keys") host.reader.as_array)
            (invalid_data "server-info missing current_signing_keys"))
          _ e in
      record { entries = entries; listed = ok_or_ok _ _ h₀; entry = first_pq_key-Entry entries e₀ }

  module _ (get_json : Request → Result CliError J) (trust : ServerTrust J) where
    -- The server's key of an id, in the server-info that the command has read, or in the one that it
    -- reads again by a request.
    abbrev pub ServerKey : Request → Bytes → Bytes → Type 0
    ServerKey request key_id vk =
        KeyIn (trust.info) key_id vk
        ⊎ ((fresh : J) × (get_json request ≡ ok fresh) × KeyIn fresh key_id vk)

    or_fresh-ServerKey :
        (request : Request) (key_id : Bytes) (found : Option Bytes) {vk : Bytes}
        → find_key_by_id host (trust.info) key_id ≡ ok found
        → or_fresh host get_json request key_id found ≡ ok vk
        → ServerKey request key_id vk
    or_fresh-ServerKey request key_id (some k) read e =
        inl (find_key_by_id-KeyIn (trust.info) key_id (read ∙ ap (λ x. ok (some x)) (ok_inj e)))
    or_fresh-ServerKey request key_id none read e =
        let (fresh, h₀, e₀) = bind_ok (get_json request) _ e in
        let (found, h₁, e₁) = bind_ok (find_key_by_id host fresh key_id) _ e₀ in
        inr (fresh, h₀, find_key_by_id-KeyIn fresh key_id (h₁ ∙ ap ok (ok_or_ok found _ e₁)))

    pub key_by_id-ServerKey :
        (request : Request) (key_id : Bytes) {vk : Bytes}
        → key_by_id host get_json trust request key_id ≡ ok vk
        → ServerKey request key_id vk
    unfolding key_by_id
    key_by_id-ServerKey request key_id e =
        let (found, h₀, e₀) = bind_ok (find_key_by_id host (trust.info) key_id) _ e in
        or_fresh-ServerKey request key_id found h₀ e₀

    -- The key for the ML-DSA-87 half: the server's key of the id that is named, or else its active one.
    abbrev pub PqKey : Option Bytes → Bytes → Type 0
    PqKey none vk = ActivePqKey trust vk
    PqKey (some pq_kid) vk = ServerKey (server_info_pq pq_kid) pq_kid vk

    pub pq_key_for-PqKey :
        (named : Option Bytes) {vk : Bytes}
        → pq_key_for host get_json trust named ≡ ok vk
        → PqKey named vk
    pq_key_for-PqKey none e = active_pq_key-Active trust e
    pq_key_for-PqKey (some pq_kid) e = key_by_id-ServerKey (server_info_pq pq_kid) pq_kid e
