-- ===== src/Identity/Bridge.antt =====
-- Who may consume an identity (dashboard/identity_bridge.go: verifyBridgeBody,
-- handleIdentityConsume).
use ninj_os_proxie_edge_fabr.Prelude.{
  ◌≡◌, ◌≢◌, ◌⊎◌, refl, sym, ap, ◌∙◌, true, false, not, ◌&&◌, ◌||◌, Option, none, some, [], arith,
  Text, ◌==◌, text_beq_iff, Option-cases, Bool-cases, inl, inr,
}
use ninj_os_proxie_edge_fabr.GoText.{trim_space}
use ninj_os_proxie_edge_fabr.Replay.{
  normalize_server_id, Call, Seen, Verdict, authorized, unauthorized, replayed, verify_signed_body,
  secret_of,
}
use ninj_os_proxie_edge_fabr.Replay.Signing.{IsAuthorized}
use ninj_os_proxie_edge_fabr.Identity.{
  Grant, Grants, ConsumeRequest, consume_grant, verify_bridge_body, ConsumeAnswer, ConsumeCall,
  bad_json, bridge_unauthorized, consumed, answer, handle_identity_consume,
}

-- The bridge token is the server's secret.
pub record HasToken (c : Call) (token : Text) : Type 0 where
  pub server : normalize_server_id c.request.server ≢ []
  pub secret : secret_of c.secrets c.request ≢ []
  pub same : trim_space token ≡ secret_of c.secrets c.request

answer-consumed :
    (x : Option Grant × Grants) (g : Grant) (grants' : Grants)
    → answer x ≡ (consumed g, grants')
    → x ≡ (some g, grants')
unfolding answer
answer-consumed (none, kept) g grants' e =
    let other = ap (λ (y : ConsumeAnswer × Grants). y.0) e in absurd (cc other)
answer-consumed (some g', kept) g grants' e =
    let same : consumed g' ≡ consumed g = ap (λ (y : ConsumeAnswer × Grants). y.0) e in
    let found : g' ≡ g = cc same in
    let left : kept ≡ grants' = ap (λ (y : ConsumeAnswer × Grants). y.1) e in rw (found, left) refl

module _ (mac : Text → Text → Text) where
  verify_bridge_body-true :
      (c : Call) (token : Text) (seen : Seen)
      → (verify_bridge_body mac c token seen).0 ≡ true
      → IsAuthorized mac c seen ⊎ HasToken c token
  unfolding verify_bridge_body
  verify_bridge_body-true c token seen h = go (verify_signed_body mac c seen).0 refl
    where
      token_holds :
          (not (
                normalize_server_id c.request.server == []
                || trim_space token == []
                || secret_of c.secrets c.request == [])
              && trim_space token == secret_of c.secrets c.request)
            ≡ true
          → HasToken c token
      token_holds b =
          let server = text_beq_iff (normalize_server_id c.request.server) [] in
          let secret = text_beq_iff (secret_of c.secrets c.request) [] in
          record {
            server = λ e. ground (arith, b, server, e);
            secret = λ e. ground (arith, b, secret, e);
            same =
                ground (arith, b, text_beq_iff (trim_space token) (secret_of c.secrets c.request));
          }

      go :
          (v : Verdict)
          → (verify_signed_body mac c seen).0 ≡ v
          → IsAuthorized mac c seen ⊎ HasToken c token
      go authorized e = inl e
      go unauthorized e = inr (token_holds (ground (arith, h, e)))
      go replayed e = inr (token_holds (ground (arith, h, e)))

  module _ (decode : Text → Option ConsumeRequest) (c : ConsumeCall) (seen : Seen)
      (grants : Grants) where
    body : Text
    body = c.call.request.body

    -- The answer of a call that the bridge check lets pass.
    passed :
        (r : ConsumeRequest)
        → (verify_bridge_body mac c.call c.token seen).0 ≡ true
        → decode body ≡ some r
        → (handle_identity_consume mac decode c seen grants).0
          ≡ answer (consume_grant c.now c.order r grants)
    unfolding handle_identity_consume body
    passed r ok d = rw (ok, d) refl

    garbled :
        (verify_bridge_body mac c.call c.token seen).0 ≡ true
        → decode body ≡ none
        → (handle_identity_consume mac decode c seen grants).0 ≡ (bad_json, grants)
    unfolding handle_identity_consume body
    garbled ok d = rw (ok, d) refl

    stopped :
        (verify_bridge_body mac c.call c.token seen).0 ≡ false
        → (handle_identity_consume mac decode c seen grants).0 ≡ (bridge_unauthorized, grants)
    unfolding handle_identity_consume
    stopped bad = rw bad refl

    -- The answer of `handleIdentityConsume` is a grant only if the request is authorized by its
    -- signature or carries the secret of the server that it names, its body decodes, and the grant is
    -- what the store gives for that body.
    pub handle-consumed :
        (g : Grant) (grants' : Grants)
        → (handle_identity_consume mac decode c seen grants).0 ≡ (consumed g, grants')
        → (IsAuthorized mac c.call seen ⊎ HasToken c.call c.token)
          × (r : ConsumeRequest) × (decode c.call.request.body ≡ some r)
          × (consume_grant c.now c.order r grants ≡ (some g, grants'))
    unfolding body
    handle-consumed g grants' h = elim (Bool-cases (verify_bridge_body mac c.call c.token seen).0) [
      | inr bad ↦
          let other = ap (λ (x : ConsumeAnswer × Grants). x.0) (sym (stopped bad) ∙ h) in
          absurd (cc other)
      | inl ok ↦ elim (Option-cases (decode body)) [
        | inl d ↦
            let other = ap (λ (x : ConsumeAnswer × Grants). x.0) (sym (garbled ok d) ∙ h) in
            absurd (cc other)
        | inr (r, d) ↦ (
          verify_bridge_body-true c.call c.token seen ok,
          r,
          d,
          answer-consumed (consume_grant c.now c.order r grants) g grants'
              (sym (passed r ok d) ∙ h),
        )
      ]
    ]
