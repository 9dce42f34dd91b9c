-- ===== src/Json.antt =====
-- The JSON values of queue payloads, and Python's `dict` of them: storage.py, queue_worker.py,
-- service.py and scheduled_job.py read and write payloads of this shape. A payload is an object;
-- its values are tested by `isinstance`, so a number with a fraction, an array and an object are
-- one constructor that holds the canonical text of the value.
pub mod Dict
pub mod Dumps
pub mod Tree
use shadowglass_v35_runtime.Common.{
  String, Bool, true, false, Option, none, some, List, [], ◌∷◌, ◌&&◌, all, str_eq, if◌then◌else◌,
}
use shadowglass_v35_runtime.Common.Int.{ℤ, eq_ℤ}
use shadowglass_v35_runtime.Common.Text.{show_ℤ}

pub data Json : Type 0 where
  null : Json
  boolean : Bool → Json
  int : ℤ → Json
  str : String → Json
  other : String → Json

abbrev pub Payload : Type 0
Payload = List (String × Json)

-- `payload.get(key)`, and `key in payload` where it answers.
unfoldable pub get : String → Payload → Option Json
get key [] = none
get key ((k, v) ∷ rest) = if str_eq k key then some v else get key rest

abbrev pub bool_eq : Bool → Bool → Bool
bool_eq true b = b
bool_eq false true = false
bool_eq false false = true

-- Two values have the same JSON text.
unfoldable pub json_eq : Json → Json → Bool
json_eq null null = true
json_eq (boolean a) (boolean b) = bool_eq a b
json_eq (int a) (int b) = eq_ℤ a b
json_eq (str a) (str b) = str_eq a b
json_eq (other a) (other b) = str_eq a b
json_eq _ _ = false

abbrev pub holds : Payload → String × Json → Bool
holds p (k, v) = elim (get k p) [ none ↦ false | some w ↦ json_eq v w ]

-- `json.dumps(a, sort_keys=True) == json.dumps(b, sort_keys=True)`: the texts are equal exactly
-- when the objects have the same members. What JSONB makes of a float on its way is left out.
unfoldable pub same_text : Payload → Payload → Bool
unfolding get json_eq
same_text a b = all (holds b) a && all (holds a) b

-- PostgreSQL's `payload ->> 'key'`: NULL for a missing key and for JSON null.
unfoldable pub text_at : String → Payload → Option String
unfolding get show_ℤ
text_at key p = elim (get key p) [
  | none ↦ none
  | some v ↦ elim v [
    | null ↦ none
    | boolean b ↦ some (if b then "true" else "false")
    | int n ↦ some (show_ℤ n)
    | str s ↦ some s
    | other t ↦ some t
  ]
]
