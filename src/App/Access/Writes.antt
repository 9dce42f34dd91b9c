-- ===== src/App/Access/Writes.antt =====
-- app.py: the routes that change the queue ask for the write token.
use shadowglass_v35_runtime.Common.{
  ℕ, String, ◌≡◌, ◌≢◌, refl, inl, inr, Bool, true, false, ◌||◌, none, arith, leb, str_eq, eq_iff,
  Bool-cases, List, [], ◌∷◌, any, all,
}
use shadowglass_v35_runtime.Common.Text.{starts_with}
use shadowglass_v35_runtime.Common.Result.{Result}
use shadowglass_v35_runtime.App.Limiter.{Limiter}
use shadowglass_v35_runtime.App.Access.{
  Request, Response, Config, presented_token, route_template, template_of_path, is_write,
  is_protected, security_middleware,
}
use shadowglass_v35_runtime.App.Access.Guarded.{grants, security_middleware-Refuses}

-- The paths of the routes that change the queue: `/pause/{id}` and `/resume/{id}` match no other.
abbrev pub write_paths : List String
write_paths = "/scrape" ∷ "/scrape/all" ∷ "/scrape/multi" ∷ "/discover" ∷ "/scrape/direct" ∷ []

abbrev pub is_write_path : String → Bool
is_write_path path =
    any (λ w. str_eq w path) write_paths
    || starts_with path "/pause/"
    || starts_with path "/resume/"

pause_template :
    (path : String) → starts_with path "/pause/" ≡ true → template_of_path path ≡ "/pause/{id}"
pause_template String.[] h = absurd (ground (arith, h))
pause_template (String.◌∷◌ a String.[]) h = absurd (ground (arith, h))
pause_template (String.◌∷◌ a (String.◌∷◌ b path)) h = ground (arith, h)

resume_template :
    (path : String) → starts_with path "/resume/" ≡ true → template_of_path path ≡ "/resume/{id}"
resume_template String.[] h = absurd (ground (arith, h))
resume_template (String.◌∷◌ a String.[]) h = absurd (ground (arith, h))
resume_template (String.◌∷◌ a (String.◌∷◌ b String.[])) h = absurd (ground (arith, h))
resume_template (String.◌∷◌ a (String.◌∷◌ b (String.◌∷◌ c String.[]))) h =
    absurd (ground (arith, h))
resume_template (String.◌∷◌ a (String.◌∷◌ b (String.◌∷◌ c (String.◌∷◌ d path)))) h =
    ground (arith, h)

listed_template :
    (path : String) (ws : List String)
    → all (λ w. is_write (template_of_path w)) ws ≡ true
    → any (λ w. str_eq w path) ws ≡ true
    → is_write (template_of_path path) ≡ true
listed_template path [] a h = absurd (ground (arith, h))
listed_template path (w ∷ ws) a h = elim (Bool-cases (str_eq w path)) [
  | inl hit ↦ let same = (eq_iff w path).0 hit in rw (← same) (ground (arith, a))
  | inr miss ↦ listed_template path ws (ground (arith, a)) (rw miss at h)
]

-- Before the route is resolved, a write path has a write template.
write_template :
    (path : String) → is_write_path path ≡ true → is_write (template_of_path path) ≡ true
unfolding is_write
write_template path h = elim (Bool-cases (any (λ w. str_eq w path) write_paths)) [
  | inl listed ↦ listed_template path write_paths refl listed
  | inr other ↦ elim (Bool-cases (starts_with path "/pause/")) [
    | inl pausing ↦ rw (pause_template path pausing) refl
    | inr rest ↦ rw (resume_template path (ground (arith, h, other, rest))) refl
  ]
]

write_path-protected : (r : Request) → is_write_path r.path ≡ true → is_protected r ≡ true
unfolding is_protected
write_path-protected r h = elim (Bool-cases (str_eq r.path "/health")) [
  | inl health ↦
      let same = (eq_iff r.path "/health").0 health in
      absurd (let no_write : false ≡ true = rw same at h in cc)
  | inr other ↦ rw other refl
]

module _ {S : Type 0} where
  -- In the middleware, which runs before the router has set a route, a request to a path that
  -- changes the queue is refused without its handler unless it presents the write token; the read
  -- token does not do.
  pub write_path-Refuses :
      (c : Config) (first now : ℕ) (r : Request) (next next' : S → Result Response × S)
      (l : Limiter) (s : S)
      → r.route ≡ none
      → is_write_path r.path ≡ true
      → presented_token r ≢ c.write_token
      → (security_middleware c first now r next l s ≡ security_middleware c first now r next' l s)
        × ((security_middleware c first now r next l s).2 ≡ s)
        × (leb 400 (security_middleware c first now r next l s).0.status ≡ true)
  unfolding route_template
  write_path-Refuses c first now r next next' l s early writes other =
      security_middleware-Refuses c first now r next next' l s (write_path-protected r writes)
        (refused_token (route_template-write early))
    where
      route_template-write : r.route ≡ none → is_write (route_template r) ≡ true
      route_template-write e = rw e (write_template r.path writes)

      refused_token : is_write (route_template r) ≡ true → grants c r (route_template r) ≡ false
      refused_token w = rw w (elim (Bool-cases (str_eq (presented_token r) c.write_token)) [
        | inl same ↦ absurd (other ((eq_iff (presented_token r) c.write_token).0 same))
        | inr differs ↦ differs
      ])
