-- ===== src/Signer/Scope.antt =====
-- The host signer touches no key of another handle: cli/src/host_signer.rs, `handle_op`.
use signet_drive.Base.{not, ◌≡◌, refl, ap, arith, sym, ◌∙◌, Bytes, none}
use signet_drive.Base.{bytes_eq, bytes_eq→eq, inl, inr}
use signet_drive.Base.Results.{Result, ok, err, bind_ok, then_ok, ok_inj}
use signet_drive.Base.Results.{Result-cases}
use signet_drive.Channel.Wire.{Op, OpOk}
use signet_drive.Keystore.{CliError, Message, KeyLabel, Keystore, parse}
use signet_drive.Signer.{scoped_label, answered, on_label, after_check}
use signet_drive.Signer.{dispatch, to_response, handle_op}

scoped_label_lem : (label h : Bytes) {l : KeyLabel} → scoped_label label h ≡ ok l → l.handle ≡ h
unfolding scoped_label
scoped_label_lem label h {l} e =
    let (parsed, found, e₁) = bind_ok (parse label none) _ e in
    let (own, e₂) = then_ok (not (bytes_eq parsed.handle h)) _ _ e₁ in
    ap (λ x. x.handle) (sym (ok_inj e₂)) ∙ bytes_eq→eq parsed.handle h (ground arith)

-- A property of the backend's state that every operation on a label of one handle preserves, and the
-- listing of the keys.
pub record Keeps {K : Type 0} (ks : Keystore K) (h : Bytes) (P : K → Type 0) : Type 0 where
  pub by_generate :
      (k : K) (l : KeyLabel) (a : Bytes) → l.handle ≡ h → P k → P (ks.generate k l a).0
  pub by_meta : (k : K) (l : KeyLabel) → l.handle ≡ h → P k → P (ks.meta_of k l).0
  pub by_sign : (k : K) (l : KeyLabel) (m : Bytes) → l.handle ≡ h → P k → P (ks.sign_with k l m).0
  pub by_ecdh : (k : K) (l : KeyLabel) (p : Bytes) → l.handle ≡ h → P k → P (ks.ecdh_with k l p).0
  pub by_decapsulate :
      (k : K) (l : KeyLabel) (c : Bytes) → l.handle ≡ h → P k → P (ks.decapsulate k l c).0
  pub by_ml_dsa_sign :
      (k : K) (l : KeyLabel) (m c : Bytes) → l.handle ≡ h → P k → P (ks.ml_dsa_sign_with k l m c).0
  pub by_list : (k : K) → P k → P (ks.list_all k).0
  pub by_delete : (k : K) (l : KeyLabel) → l.handle ≡ h → P k → P (ks.delete_key k l).0
  pub by_exists : (k : K) (l : KeyLabel) → l.handle ≡ h → P k → P (ks.key_exists k l).0

module _ {K : Type 0} (ks : Keystore K) (render : Message → Bytes) where
  answered-keeps :
      {A : Type 0} (P : K → Type 0) (r : K × Result CliError A) (f : A → OpOk)
      → P r.0
      → P (answered ks render r f).0
  answered-keeps P (k, ok a) f p = p
  answered-keeps P (k, err e) f p = p

  on_label-keeps :
      (P : K → Type 0) (k : K) (label h : Bytes) (f : KeyLabel → K × Result CliError OpOk)
      → P k
      → ((l : KeyLabel) → l.handle ≡ h → P (f l).0)
      → P (on_label ks render k (scoped_label label h) f).0
  unfolding on_label
  on_label-keeps P k label h f p each = elim (Result-cases (scoped_label label h)) [
    | inl (l, found) ↦ rw found (each l (scoped_label_lem label h found))
    | inr (e, refused) ↦ rw refused p
  ]

  after_check-keeps :
      (P : K → Type 0) (k : K) (r : Result CliError (Unit {0})) (done : K × Result CliError OpOk)
      → P k
      → P done.0
      → P (after_check ks render k r done).0
  unfolding after_check
  after_check-keeps P k (ok u) done p q = q
  after_check-keeps P k (err e) done p q = p

  dispatch-keeps :
      (h : Bytes) (P : K → Type 0) (k : K) (op : Op)
      → Keeps ks h P
      → P k
      → P (dispatch ks render k h op).0
  unfolding dispatch
  dispatch-keeps h P k (Op.keygen label a) c p =
      on_label-keeps P k label h _ p
        (λ l own. answered-keeps P (ks.generate k l a) _ (c.by_generate k l a own p))
  dispatch-keeps h P k (Op.sign label m) c p =
      on_label-keeps P k label h _ p
        (λ l own. answered-keeps P (ks.sign_with k l m) _ (c.by_sign k l m own p))
  dispatch-keeps h P k (Op.ecdh label q) c p =
      on_label-keeps P k label h _ p
        (λ l own. answered-keeps P (ks.ecdh_with k l q) _ (c.by_ecdh k l q own p))
  dispatch-keeps h P k (Op.ml_kem_decapsulate label ek) c p =
      on_label-keeps P k label h _ p (λ l own.
        after_check-keeps P k _ _ p
          (answered-keeps P (ks.decapsulate k l ek) _ (c.by_decapsulate k l ek own p)))
  dispatch-keeps h P k (Op.ml_dsa_sign label m x) c p = on_label-keeps P k label h _ p (λ l own.
      after_check-keeps P k _ _ p
        (answered-keeps P (ks.ml_dsa_sign_with k l m x) _ (c.by_ml_dsa_sign k l m x own p)))
  dispatch-keeps h P k (Op.meta label) c p =
      on_label-keeps P k label h _ p
        (λ l own. answered-keeps P (ks.meta_of k l) _ (c.by_meta k l own p))
  dispatch-keeps h P k (Op.exists label) c p =
      on_label-keeps P k label h _ p
        (λ l own. answered-keeps P (ks.key_exists k l) _ (c.by_exists k l own p))
  dispatch-keeps h P k Op.list c p = answered-keeps P (ks.list_all k) _ (c.by_list k p)
  dispatch-keeps h P k Op.identity c p = p
  dispatch-keeps h P k (Op.delete label) c p =
      on_label-keeps P k label h _ p
        (λ l own. answered-keeps P (ks.delete_key k l) _ (c.by_delete k l own p))

  to_response-state : (d : K × Result CliError OpOk) → (to_response ks render d).0 ≡ d.0
  unfolding to_response
  to_response-state (k, ok r) = refl
  to_response-state (k, err e) = refl

  -- Whatever the operation and its label, `handle_op` changes the backend only by operations on labels
  -- of the handle it is given: it preserves every property of the backend's state that those
  -- operations and the listing preserve.
  pub handle_op_scoped :
      (h : Bytes) (P : K → Type 0) (k : K) (op : Op)
      → Keeps ks h P
      → P k
      → P (handle_op ks render k h op).0
  unfolding handle_op
  handle_op_scoped h P k op c p =
      rw (to_response-state (dispatch ks render k h op)) (dispatch-keeps h P k op c p)
