-- ===== src/App/Access/Guarded.antt =====
-- app.py: which requests reach a handler.
use shadowglass_v35_runtime.Common.{
  ℕ, String, ◌≡◌, refl, ap, inl, inr, Bool, true, false, ◌&&◌, ◌||◌, arith, leb, ltb, str_eq,
  Bool-cases, if◌then◌else◌,
}
use shadowglass_v35_runtime.Common.Text.{is_empty, every}
use shadowglass_v35_runtime.Common.Result.{Result, ok, err}
use shadowglass_v35_runtime.App.Limiter.{Limiter, Verdict, allowed, denied, index_error, allow}
use shadowglass_v35_runtime.App.Access.{
  Request, Response, Config, Outcome, presented_token, route_template, is_write, is_protected,
  has_body, compare_digest, limited, scoped, compared, authenticated, guarded, security_middleware,
  client_key,
}
use Prim.Native.String

-- The presented token is one that the request's route asks for.
abbrev pub grants : Config → Request → String → Bool
grants c r template =
    if is_write template
    then str_eq (presented_token r) c.write_token
    else str_eq (presented_token r) c.read_token || str_eq (presented_token r) c.write_token

module _ {S : Type 0} where
  -- A refusal, or a raise that the middleware turns into a 500.
  abbrev pub is_refused : Outcome S → Bool
  is_refused (ok response, l, s) = leb 400 response.status
  is_refused (err e m, l, s) = true

  -- The handler was not called: another one gives the same, its state stays, and the answer refuses.
  abbrev pub Refuses : S → Outcome S → Outcome S → Type 0
  Refuses s o o' = (o ≡ o') × (o.2 ≡ s) × (is_refused o ≡ true)

  module _ (c : Config) (now : ℕ) (r : Request) (template : String)
      (next next' : S → Result Response × S) (l : Limiter) (s : S) where
    scoped-Refuses :
        (has_read has_write : Bool)
        → (if is_write template then has_write else has_read || has_write) ≡ false
        → Refuses s
            (scoped c now r template next l s has_read has_write)
            (scoped c now r template next' l s has_read has_write)
    scoped-Refuses has_read has_write e = ground (arith, Bool-cases (is_write template))

    compared-Refuses :
        grants c r template ≡ false
        → Refuses s
            (compared c now r template next l s
              (compare_digest (presented_token r) c.read_token)
              (compare_digest (presented_token r) c.write_token))
            (compared c now r template next' l s
              (compare_digest (presented_token r) c.read_token)
              (compare_digest (presented_token r) c.write_token))
    unfolding compare_digest
    compared-Refuses e =
        elim (Bool-cases
          (every (λ c. ltb c 128) (presented_token r) && every (λ c. ltb c 128) c.read_token)) [
            | inr odd ↦ rw odd (refl, refl, refl)
            | inl plain ↦
                elim (Bool-cases (
                  every (λ c. ltb c 128) (presented_token r)
                  && every (λ c. ltb c 128) c.write_token)) [
                    | inr odd ↦ rw (plain, odd) (refl, refl, refl)
                    | inl fine ↦
                        rw (plain, fine)
                          (scoped-Refuses (str_eq (presented_token r) c.read_token)
                            (str_eq (presented_token r) c.write_token) e)
                  ]
          ]

    authenticated-Refuses :
        grants c r template ≡ false
        → Refuses s
            (authenticated c now r template next l s)
            (authenticated c now r template next' l s)
    unfolding authenticated
    authenticated-Refuses e = elim (Bool-cases (is_empty (presented_token r))) [
      | inl blank ↦ rw blank (refl, refl, refl)
      | inr there ↦ elim (Bool-cases (is_empty c.read_token || is_empty c.write_token)) [
        | inl lacking ↦ rw (there, lacking) (refl, refl, refl)
        | inr set ↦ rw (there, set) (compared-Refuses e)
      ]
    ]

    limited-Refuses :
        (v : Verdict) (o o' : Outcome S)
        → Refuses s o o'
        → Refuses s (limited v l s o) (limited v l s o')
    limited-Refuses allowed o o' h = h
    limited-Refuses (denied n) o o' h = (refl, refl, refl)
    limited-Refuses index_error o o' h = (refl, refl, refl)

  guarded-Refuses :
      (s : S) (o o' : Outcome S)
      → Refuses s o o'
      → (guarded o ≡ guarded o') × ((guarded o).2 ≡ s) × (leb 400 (guarded o).0.status ≡ true)
  guarded-Refuses s (ok response, l, s') o' (e, same, high) = (ap guarded e, same, high)
  guarded-Refuses s (err f m, l, s') o' (e, same, high) = (ap guarded e, same, refl)

  -- A protected request whose presented token is not the write token, nor, off the write routes,
  -- the read token, is answered with a status of 400 or more without its handler: any other handler
  -- in its place gives the same answer and the same limiter, and the handlers' state stays.
  pub security_middleware-Refuses :
      (c : Config) (first now : ℕ) (r : Request) (next next' : S → Result Response × S)
      (l : Limiter) (s : S)
      → is_protected r ≡ true
      → grants c r (route_template r) ≡ false
      → (security_middleware c first now r next l s ≡ security_middleware c first now r next' l s)
        × ((security_middleware c first now r next l s).2 ≡ s)
        × (leb 400 (security_middleware c first now r next l s).0.status ≡ true)
  unfolding security_middleware
  security_middleware-Refuses c first now r next next' l s p e =
      let (verdict, l') = allow first (String.◌++◌ "auth:" (client_key c r)) 60 60 l in
      let inner =
        limited-Refuses c now r (route_template r) next next' l' s verdict
          (authenticated c now r (route_template r) next l' s)
          (authenticated c now r (route_template r) next' l' s)
          (authenticated-Refuses c now r (route_template r) next next' l' s e) in
      let outer = guarded-Refuses s _ _ inner in
      elim (Bool-cases (str_eq r.method "OPTIONS")) [
        | inl options ↦ rw options (refl, refl, refl)
        | inr plain ↦ elim (Bool-cases (has_body r.method && ltb 128000 r.body_size)) [
          | inl large ↦ rw (plain, large) (refl, refl, refl)
          | inr small ↦ rw (plain, small, p) outer
        ]
      ]
