-- ===== src/Signer/Replies.antt =====
-- What the host signer answers about keys: cli/src/host_signer.rs, `handle_op`.
use signet_drive.Base.{◌≡◌, ◌≢◌, refl, ap, arith, sym, subst, ◌∙◌, Bytes, Option, none}
use signet_drive.Base.{some, List, [], ◌∷◌, bytes_eq, bytes_eq→eq, Bool-cases, inl, inr}
use signet_drive.Base.Results.{ok, err}
use signet_drive.Base.Results.{Result-cases}
use signet_drive.Channel.Wire.{Op, OpOk, KeyEntry, success, failure}
use signet_drive.Keystore.{CliError, Message, KeyLabel, KeyMeta, Keystore, Purpose, parse, full}
use signet_drive.Keystore.{authorization_denied, label_of_other}
use signet_drive.Keystore.Labels.{full-parse}
use signet_drive.Signer.{scoped_label, is_own, to_entry, own_entries, on_label}
use signet_drive.Signer.{dispatch, to_wire, to_response, handle_op}

-- The entry is of a key of the handle: its label is that of the handle and a purpose.
abbrev pub IsOf : Bytes → KeyEntry → Type 0
IsOf h entry = (p : Purpose) × (entry.label ≡ full (record { handle = h; purpose = p }))

abbrev pub AllOf : Bytes → List KeyEntry → Type 0
AllOf h [] = Unit
AllOf h (entry ∷ entries) = IsOf h entry × AllOf h entries

own_entries-AllOf : (h : Bytes) (metas : List KeyMeta) → AllOf h (own_entries h metas)
unfolding own_entries is_own to_entry
own_entries-AllOf h [] = tt
own_entries-AllOf h (m ∷ metas) = elim (Result-cases (parse m.label none)) [
  | inr (e, bad) ↦ rw bad (own_entries-AllOf h metas)
  | inl (l, found) ↦ elim (Bool-cases (bytes_eq l.handle h)) [
    | inr other ↦ rw found (rw other (own_entries-AllOf h metas))
    | inl own ↦
        let same = bytes_eq→eq l.handle h own in
        let (printed, _) = full-parse m.label none found in
        rw found (
          rw own (
            (
              l.purpose,
              sym printed ∙ ap (λ x. full (record { handle = x; purpose = l.purpose })) same,
            ),
            own_entries-AllOf h metas,
          ))
  ]
]

-- The label that an operation names.
abbrev pub op_label : Op → Option Bytes
op_label (Op.keygen label a) = some label
op_label (Op.sign label m) = some label
op_label (Op.ecdh label p) = some label
op_label (Op.ml_kem_decapsulate label c) = some label
op_label (Op.ml_dsa_sign label m c) = some label
op_label (Op.meta label) = some label
op_label (Op.exists label) = some label
op_label Op.list = none
op_label Op.identity = none
op_label (Op.delete label) = some label

scoped_label_other :
    (label h : Bytes) {l : KeyLabel}
    → parse label none ≡ ok l
    → l.handle ≢ h
    → scoped_label label h ≡ err (authorization_denied (label_of_other label h))
unfolding scoped_label
scoped_label_other label h {l} found other = elim (Bool-cases (bytes_eq l.handle h)) [
  | inl same ↦ absurd (other (bytes_eq→eq l.handle h same))
  | inr differs ↦ rw found (rw differs refl)
]

module _ {K : Type 0} (ks : Keystore K) (render : Message → Bytes) where
  -- A listing that succeeds names keys of the given handle only.
  pub handle_op_lists_own :
      (k : K) (h : Bytes) {k' : K} {keys : List KeyEntry}
      → handle_op ks render k h Op.list ≡ (k', success (OpOk.list keys))
      → AllOf h keys
  unfolding handle_op dispatch to_response to_wire
  handle_op_lists_own k h {k'} {keys} e = elim (Result-cases (ks.list_all k).1) [
    | inr (x, failed) ↦ absurd (ground arith)
    | inl (metas, listed) ↦
        let same : own_entries h metas ≡ keys = ground arith in
        subst (AllOf h) same (own_entries-AllOf h metas)
  ]

  dispatch-denied :
      (k : K) (h : Bytes) (op : Op) (label : Bytes) {e : CliError}
      → op_label op ≡ some label
      → scoped_label label h ≡ err e
      → dispatch ks render k h op ≡ (k, err e)
  unfolding dispatch on_label
  dispatch-denied k h (Op.keygen label' a) label named denied = ground arith
  dispatch-denied k h (Op.sign label' m) label named denied = ground arith
  dispatch-denied k h (Op.ecdh label' p) label named denied = ground arith
  dispatch-denied k h (Op.ml_kem_decapsulate label' c) label named denied = ground arith
  dispatch-denied k h (Op.ml_dsa_sign label' m c) label named denied = ground arith
  dispatch-denied k h (Op.meta label') label named denied = ground arith
  dispatch-denied k h (Op.exists label') label named denied = ground arith
  dispatch-denied k h (Op.delete label') label named denied = ground arith
  dispatch-denied k h Op.list label named denied = absurd (ground arith)
  dispatch-denied k h Op.identity label named denied = absurd (ground arith)

  -- An operation on a label of another handle is denied, and the backend is not called.
  pub handle_op_denies_other :
      (k : K) (h : Bytes) (op : Op) (label : Bytes) {l : KeyLabel}
      → op_label op ≡ some label
      → parse label none ≡ ok l
      → l.handle ≢ h
      → handle_op ks render k h op ≡ (
        k,
        failure (record {
          code = (authorization_denied (label_of_other label h)).code;
          message = render (label_of_other label h);
        }),
      )
  unfolding handle_op to_response to_wire
  handle_op_denies_other k h op label named found other =
      ap (to_response ks render)
        (dispatch-denied k h op label named (scoped_label_other label h found other))
