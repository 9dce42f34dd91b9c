-- ===== src/Tests/Api.antt =====
-- Tests of core.py and app.py.
use shadowglass_v35_runtime.Common.{
  ℕ, ◌≤◌, String, ◌≡◌, ◌≢◌, refl, sym, ◌∙◌, Bool, true, false, Option, none, some, [], ◌∷◌, arith,
  leb, str_eq, eq_iff,
}
use shadowglass_v35_runtime.Common.Text.{length, every}
use shadowglass_v35_runtime.Common.Result.{Result, ok}
use shadowglass_v35_runtime.Requests.{clean_county, clean_instrument}
use shadowglass_v35_runtime.Requests.Literal.{is_literal, clean-IsLiteral}
use shadowglass_v35_runtime.App.Limiter.{Limiter, new_limiter, lookup}
use shadowglass_v35_runtime.App.Limiter.Window.{answers, ideal, answers-ideal}
use shadowglass_v35_runtime.App.Access.{
  Request, Response, Config, refusal, presented_token, route_template, is_protected,
  security_middleware,
}
use shadowglass_v35_runtime.App.Access.Guarded.{grants, security_middleware-Refuses}
use shadowglass_v35_runtime.App.Access.Writes.{write_path-Refuses}

clean-IsLiteral_example :
    ((s : String)
      → clean_county "  San   Jacinto " ≡ ok s
      → (every is_literal s ≡ true) × (length s ≤ 80))
    × ((s : String)
        → clean_instrument "  San   Jacinto " ≡ ok s
        → (every is_literal s ≡ true) × (length s ≤ 120))
clean-IsLiteral_example = clean-IsLiteral "  San   Jacinto "

new_key : lookup "auth:a" (new_limiter 4096).events ≡ none
unfolding lookup
new_key = refl

answers-ideal_example :
    answers "auth:a" 2 60 (new_limiter 4096) (1 ∷ 2 ∷ 3 ∷ 60000001 ∷ [])
    ≡ ideal 2 60 [] (1 ∷ 2 ∷ 3 ∷ 60000001 ∷ [])
answers-ideal_example =
    answers-ideal "auth:a" 2 60 (1 ∷ 2 ∷ 3 ∷ 60000001 ∷ []) (new_limiter 4096) new_key
      (omega arith, (omega arith, (omega arith, (omega arith, tt))))

-- A third call within the minute is refused, one after it is accepted.
ideal_run : ideal 2 60 [] (1 ∷ 2 ∷ 3 ∷ 60000001 ∷ []) ≡ true ∷ true ∷ false ∷ true ∷ []
unfolding ideal
ideal_run = refl

abbrev config : Config
config = record {
  digest = λ s. s;
  read_token = "reader";
  write_token = "writer";
  write_limit = 30;
  read_limit = 240;
}

abbrev pausing : Request
pausing = record {
  method = "POST";
  path = "/pause/12";
  route = none;
  authorization = "Bearer reader";
  token = "";
  host = "10.0.0.1";
  body_size = 2;
}

-- A handler that counts its calls.
abbrev counting : ℕ → Result Response × ℕ
counting n = (ok (refusal 200 "paused"), 1)

abbrev other : ℕ → Result Response × ℕ
other n = (ok (refusal 200 "other"), 7)

abbrev answer : (ℕ → Result Response × ℕ) → Response × Limiter × ℕ
answer next = security_middleware config 5 6 pausing next (new_limiter 4096) 0

protected : is_protected pausing ≡ true
unfolding is_protected
protected = refl

not_granted : grants config pausing (route_template pausing) ≡ false
unfolding route_template presented_token shadowglass_v35_runtime.App.Access.is_write
    shadowglass_v35_runtime.Common.Text.strip
not_granted = refl

security_middleware-Refuses_example :
    (answer counting ≡ answer other)
    × ((answer counting).2 ≡ 0)
    × (leb 400 (answer counting).0.status ≡ true)
security_middleware-Refuses_example =
    security_middleware-Refuses config 5 6 pausing counting other (new_limiter 4096) 0 protected
      not_granted

presented : presented_token pausing ≡ "reader"
unfolding presented_token shadowglass_v35_runtime.Common.Text.strip
presented = refl

differs : str_eq "reader" "writer" ≡ false
differs = refl

reads_only : presented_token pausing ≢ "writer"
reads_only e =
    let h : str_eq "reader" "writer" ≡ true = (eq_iff "reader" "writer").1 (sym presented ∙ e) in
    false≢true (sym differs ∙ h)
  where
    false≢true : false ≡ true → ⊥
    false≢true e = cc

write_path-Refuses_example :
    (answer counting ≡ answer other)
    × ((answer counting).2 ≡ 0)
    × (leb 400 (answer counting).0.status ≡ true)
write_path-Refuses_example =
    write_path-Refuses config 5 6 pausing counting other (new_limiter 4096) 0 refl refl reads_only
