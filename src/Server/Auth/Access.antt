-- ===== src/Server/Auth/Access.antt =====
-- Who reaches the inner app.
use licitaciones_mcp.Base.{
  ◌≡◌, refl, ap, sym, ◌∙◌, ◌&&◌, Bool, ◌↔◌, ◌⊎◌, true, false, [], ◌∷◌, ◌++◌, contains, list_eq,
  nat_eq, ◌==◌, eq_self, Bool-cases, inl, inr, All, arith, non_empty,
}
use licitaciones_mcp.Base.Text.{Text, codes, blank, text_iff}
use licitaciones_mcp.Base.Unicode.{Unicode}
use licitaciones_mcp.Base.Result.{ok, raised}
use licitaciones_mcp.Server.Auth.{
  Middleware, Request, passed_on, unauthorized, scheme_of, value_of, is_plain, compare_digest,
  answer, dispatch,
}

-- The header is `scheme token`, the scheme being `bearer` in any case of its letters.
pub record Presents (U : Unicode) (token header : Text) : Type 0 where
  pub scheme : Text
  pub one_word : All (λ c. (c == 0x20) ≡ false) scheme
  pub is_bearer : U.lower scheme ≡ codes "bearer"
  pub is_header : header ≡ (scheme ++ (blank ++ token))

parts :
    (s v : Text)
    → All (λ c. (c == 0x20) ≡ false) s
    → (scheme_of (s ++ (blank ++ v)) ≡ s) × (value_of (s ++ (blank ++ v)) ≡ v)
unfolding scheme_of value_of
parts [] v h = (refl, refl)
parts (c ∷ s) v h = let (p, q) = parts s v h.1 in (rw (h.0, p) refl, rw (h.0) q)

scheme_one_word : (h : Text) → All (λ c. (c == 0x20) ≡ false) (scheme_of h)
unfolding scheme_of
scheme_one_word [] = tt
scheme_one_word (c ∷ h) = elim (Bool-cases (c == 0x20)) [
  | inl e ↦ rw e tt
  | inr e ↦ rw e (e, scheme_one_word h)
]

-- A header with a token is its scheme, a blank and the token.
rejoined : (h : Text) → non_empty (value_of h) ≡ true → h ≡ (scheme_of h ++ (blank ++ value_of h))
unfolding scheme_of value_of
rejoined [] e = absurd (cc)
rejoined (c ∷ h) e = elim (Bool-cases (c == 0x20)) [
  | inl s ↦ rw s (ap (λ d. d ∷ h) ((nat_eq.beq_iff c 0x20).0 s))
  | inr s ↦
      let e' : non_empty (value_of h) ≡ true = rw s at e in rw s (ap (λ t. c ∷ t) (rejoined h e'))
]

module _ (U : Unicode) (m : Middleware) (r : Request) where
  -- The header names the scheme `bearer`.
  abbrev pub is_bearer_header : Bool
  is_bearer_header = U.lower (scheme_of r.authorization) == codes "bearer"

  -- The three outcomes of the tests.
  by_exemption : contains m.exempt r.path ≡ true → dispatch U m r ≡ ok passed_on
  unfolding dispatch
  by_exemption e = rw e refl

  by_scheme :
      contains m.exempt r.path ≡ false → is_bearer_header ≡ false → dispatch U m r ≡ ok unauthorized
  unfolding dispatch
  by_scheme e b = rw (e, b) refl

  by_token :
      contains m.exempt r.path ≡ false
      → is_bearer_header ≡ true
      → dispatch U m r ≡ answer (compare_digest (value_of r.authorization) m.token)
  unfolding dispatch
  by_token e b = rw (e, b) refl

accepted : (a b : Text) → answer (compare_digest a b) ≡ ok passed_on → (a ≡ b) × (is_plain b ≡ true)
unfolding compare_digest
accepted a b h = elim (Bool-cases (is_plain a && is_plain b)) [
  | inl p ↦ elim (Bool-cases (a == b)) [
    | inl e ↦ ((text_iff a b).0 e, ground arith)
    | inr e ↦ absurd (let k = rw (p, e) at h in cc)
  ]
  | inr p ↦ absurd (let k = rw p at h in cc)
]

accepts : (b : Text) → is_plain b ≡ true → answer (compare_digest b b) ≡ ok passed_on
unfolding compare_digest
accepts b p = rw (p, eq_self b) refl

answered : (v : Bool) (e : Text) → answer (ok v) ≡ raised e → ⊥
answered true e h = cc
answered false e h = cc

not_plain :
    (a b e : Text) → answer (compare_digest a b) ≡ raised e → (is_plain a && is_plain b) ≡ false
unfolding compare_digest
not_plain a b e h = elim (Bool-cases (is_plain a && is_plain b)) [
  | inl p ↦ absurd (answered (a == b) e (rw p at h))
  | inr p ↦ p
]

raises :
    (a b : Text)
    → (is_plain a && is_plain b) ≡ false
    → (e : Text) × (answer (compare_digest a b) ≡ raised e)
unfolding compare_digest
raises a b p = rw p (_, refl)

module _ (U : Unicode) (m : Middleware) (r : Request) where
  enters :
      non_empty m.token ≡ true
      → dispatch U m r ≡ ok passed_on
      → (contains m.exempt r.path ≡ true)
        ⊎ (Presents U m.token r.authorization × (is_plain m.token ≡ true))
  enters filled h = elim (Bool-cases (contains m.exempt r.path)) [
    | inl e ↦ inl e
    | inr e ↦ elim (Bool-cases (is_bearer_header U m r)) [
      | inl b ↦
          let (same, plain) =
            accepted (value_of r.authorization) m.token (sym (by_token U m r e b) ∙ h) in
          inr (
            record {
              scheme = scheme_of r.authorization;
              one_word = scheme_one_word r.authorization;
              is_bearer = (text_iff _ _).0 b;
              is_header =
                  rejoined r.authorization (ap non_empty same ∙ filled)
                  ∙ ap (λ t. scheme_of r.authorization ++ (blank ++ t)) same;
            },
            plain,
          )
      | inr b ↦ absurd (let k = sym (by_scheme U m r e b) ∙ h in cc)
    ]
  ]

  presented :
      Presents U m.token r.authorization → is_plain m.token ≡ true → dispatch U m r ≡ ok passed_on
  presented p plain = elim (Bool-cases (contains m.exempt r.path)) [
    | inl e ↦ by_exemption U m r e
    | inr e ↦
        let (s, v) = parts p.scheme m.token p.one_word in
        by_token U m r e (rw (p.is_header, s) ((text_iff _ _).1 p.is_bearer))
        ∙ rw (p.is_header, v) (accepts m.token plain)
  ]

  -- What makes the comparison raise.
  abbrev pub IsRaising : Type 0
  IsRaising =
      (contains m.exempt r.path ≡ false)
      × (is_bearer_header U m r ≡ true)
      × ((is_plain (value_of r.authorization) && is_plain m.token) ≡ false)

  -- Where the token is not empty, a request reaches the inner app exactly if its path is exempt, or
  -- its header presents the token and the token is ASCII. It raises exactly if its path is not
  -- exempt, its scheme is `bearer`, and what follows the scheme or the token is not ASCII.
  pub dispatch_iff :
      non_empty m.token ≡ true
      → ((dispatch U m r ≡ ok passed_on) ↔ (
          (contains m.exempt r.path ≡ true)
          ⊎ (Presents U m.token r.authorization × (is_plain m.token ≡ true))))
        × (((e : Text) × (dispatch U m r ≡ raised e)) ↔ IsRaising)
  dispatch_iff filled = (
    (
      enters filled,
      λ h. elim h [ inl e ↦ by_exemption U m r e | inr (p, plain) ↦ presented p plain ],
    ),
    (
      λ (e, h). elim (Bool-cases (contains m.exempt r.path)) [
        | inl x ↦ absurd (let k = sym (by_exemption U m r x) ∙ h in cc)
        | inr x ↦ elim (Bool-cases (is_bearer_header U m r)) [
          | inl b ↦ (x, b, not_plain _ _ e (sym (by_token U m r x b) ∙ h))
          | inr b ↦ absurd (let k = sym (by_scheme U m r x b) ∙ h in cc)
        ]
      ],
      λ (x, b, p). let (e, h) = raises _ _ p in (e, by_token U m r x b ∙ h),
    ),
  )
