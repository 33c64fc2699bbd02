-- ===== src/Cargo/Args/Language.antt =====
-- Which command lines mean what: the parser read as a grammar.
use cargo_cage.Base.{
  ◌≡◌, refl, ap, ◌∙◌, ◌≢◌, ◌↔◌, ◌⊎◌, inl, inr, Bool, true, false, Option, none, some, List, [], ◌∷◌,
  arith, ok, err, ◌==◌, list_eq, list_beq, list_beq_iff, nat_eq, if◌then◌else◌, Bool-cases,
  Option-cases,
}
use mathlib.Core.Option.{some-injective}
use cargo_cage.Os.Text.{OsString, bytes, to_str, is_utf8}
use cargo_cage.Core.Error.{CageResult}
use cargo_cage.Cargo.Args.{
  CargoCommand, build, check, test, doc, CargoInvocation, cargo, as_str, named_command, is_help,
  parse_command, parse_doctor, parse_doctor_line, parse_cargo_line, parse_rest, parse_invocation,
}

-- The command line of a Cargo command.
pub cargo_line : CargoCommand → List OsString → Bool → List OsString
cargo_line command args true = bytes "--reuse-target" ∷ as_str command ∷ args
cargo_line command args false = as_str command ∷ args

parse-cargo_line :
    (command : CargoCommand) (args : List OsString) (reuse : Bool)
    → parse_invocation (cargo_line command args reuse) ≡ ok (cargo command args reuse)
unfolding cargo_line parse_invocation as_str
parse-cargo_line build args true = refl
parse-cargo_line check args true = refl
parse-cargo_line test args true = refl
parse-cargo_line doc args true = refl
parse-cargo_line build args false = refl
parse-cargo_line check args false = refl
parse-cargo_line test args false = refl
parse-cargo_line doc args false = refl

-- A chain of tests has the result of the first that passes.
first_test :
    {A : Type 0} (b : Bool) (x : A) (rest : Option A) (a : A)
    → (if b then some x else rest) ≡ some a
    → ((b ≡ true) × (x ≡ a)) ⊎ (rest ≡ some a)
first_test true x rest a h = inl (refl, some-injective x a h)
first_test false x rest a h = inr h

spelled :
    (text : OsString) (x command : CargoCommand)
    → (list_beq text (as_str x) ≡ true) × (x ≡ command)
    → text ≡ as_str command
spelled text x command (h, e) = (list_beq_iff text (as_str x)).0 h ∙ ap as_str e

named_command-as_str :
    (text : OsString) (command : CargoCommand)
    → named_command text ≡ some command
    → text ≡ as_str command
unfolding named_command
named_command-as_str text command h =
    elim (first_test (list_beq text (bytes "build")) build _ command h) [
      | inl p ↦ unfold as_str in spelled text build command p
      | inr h ↦ elim (first_test (list_beq text (bytes "check")) check _ command h) [
        | inl p ↦ unfold as_str in spelled text check command p
        | inr h ↦ elim (first_test (list_beq text (bytes "test")) test _ command h) [
          | inl p ↦ unfold as_str in spelled text test command p
          | inr h ↦ elim (first_test (list_beq text (bytes "doc")) doc none command h) [
            | inl p ↦ unfold as_str in spelled text doc command p
            | inr h ↦ cc
          ]
        ]
      ]
    ]

parse_command-as_str :
    (text : OsString) (command : CargoCommand)
    → parse_command text ≡ some command
    → text ≡ as_str command
unfolding parse_command to_str
parse_command-as_str text command h = elim (Bool-cases (is_utf8 text)) [
  | inl e ↦ named_command-as_str text command (rw (e, parse_command, to_str) at h)
  | inr e ↦ let absent : none ≡ some command = rw (e, parse_command, to_str) at h in cc
]

parse_doctor-not_cargo :
    (line : List OsString) (command : CargoCommand) (args : List OsString) (reuse : Bool)
    → parse_doctor line ≢ ok (cargo command args reuse)
unfolding parse_doctor
parse_doctor-not_cargo [] command args reuse h = cc
parse_doctor-not_cargo (a ∷ []) command args reuse h = ground arith
parse_doctor-not_cargo (a ∷ b ∷ line) command args reuse h = cc

parse_doctor_line-not_cargo :
    (given : Bool) (line : List OsString) (command : CargoCommand) (args : List OsString)
    (reuse : Bool)
    → parse_doctor_line given line ≢ ok (cargo command args reuse)
unfolding parse_doctor_line
parse_doctor_line-not_cargo true line command args reuse h = cc
parse_doctor_line-not_cargo false line command args reuse h =
    parse_doctor-not_cargo line command args reuse h

parse_cargo_line-cargo :
    (given : Bool) (first : OsString) (line : List OsString) (command : CargoCommand)
    (args : List OsString) (reuse : Bool)
    → parse_cargo_line given first line ≡ ok (cargo command args reuse)
    → (first ∷ line ≡ as_str command ∷ args) × (given ≡ reuse)
unfolding parse_cargo_line
parse_cargo_line-cargo given first line command args reuse h =
    elim (Option-cases (parse_command first)) [
      | inl e ↦
          let failed : err _ ≡ ok (cargo command args reuse) = rw (e, parse_cargo_line) at h in cc
      | inr (known, e) ↦
          let fields : ok (cargo known line given) ≡ ok (cargo command args reuse) =
            rw (e, parse_cargo_line) at h in
          let spelling = parse_command-as_str first known e in (cc, cc)
    ]

second_result : {A : Type 0} (b : Bool) (x y a : A) → x ≢ a → (if b then x else y) ≡ a → y ≡ a
second_result true x y a n h = absurd (n h)
second_result false x y a n h = h

parse_rest-cargo :
    (given : Bool) (line : List OsString) (command : CargoCommand) (args : List OsString)
    (reuse : Bool)
    → parse_rest given line ≡ ok (cargo command args reuse)
    → (line ≡ as_str command ∷ args) × (given ≡ reuse)
unfolding parse_rest
parse_rest-cargo given [] command args reuse h = cc
parse_rest-cargo given (first ∷ line) command args reuse h =
    parse_cargo_line-cargo given first line command args reuse (
      second_result (list_beq first (bytes "doctor")) _ _ _
        (parse_doctor_line-not_cargo given line command args reuse)
        (second_result (is_help first) _ _ _ (λ e. cc) h))

-- The arguments, and the flag that was read in front of them.
flagged : Bool → List OsString → List OsString
flagged true line = bytes "--reuse-target" ∷ line
flagged false line = line

flagged-cargo_line :
    (given reuse : Bool) (line : List OsString) (command : CargoCommand) (args : List OsString)
    → (line ≡ as_str command ∷ args) × (given ≡ reuse)
    → flagged given line ≡ cargo_line command args reuse
unfolding flagged cargo_line
flagged-cargo_line true true line command args (l, g) = ap (λ rest. bytes "--reuse-target" ∷ rest) l
flagged-cargo_line false false line command args (l, g) = l
flagged-cargo_line true false line command args (l, g) = cc
flagged-cargo_line false true line command args (l, g) = cc

flag_choice :
    (first : OsString) (line : List OsString) (result : CageResult CargoInvocation)
    → (if first == bytes "--reuse-target"
        then parse_rest true line
        else parse_rest false (first ∷ line))
      ≡ result
    → (given : Bool) × (rest : List OsString) × (parse_rest given rest ≡ result)
      × (first ∷ line ≡ flagged given rest)
unfolding flagged
flag_choice first line result h = elim (Bool-cases (first == bytes "--reuse-target")) [
  | inl e ↦ (
    true,
    line,
    rw e at h,
    ap (λ f. f ∷ line) ((list_beq_iff first (bytes "--reuse-target")).0 e),
  )
  | inr e ↦ (false, first ∷ line, rw e at h, refl)
]

parse_invocation-cargo :
    (line : List OsString) (command : CargoCommand) (args : List OsString) (reuse : Bool)
    → parse_invocation line ≡ ok (cargo command args reuse)
    → line ≡ cargo_line command args reuse
unfolding parse_invocation flagged
parse_invocation-cargo [] command args reuse h =
    flagged-cargo_line false reuse [] command args (parse_rest-cargo false [] command args reuse h)
parse_invocation-cargo (first ∷ line) command args reuse h =
    let choice = second_result (list_beq first (bytes "cage")) _ _ _ (λ e. cc) h in
    let (given, rest, r, e) = flag_choice first line _ choice in
    e
    ∙ flagged-cargo_line given reuse rest command args
        (parse_rest-cargo given rest command args reuse r)

-- The parser reads a Cargo command exactly from its command line.
pub parse_invocation-cargo_iff :
    (line : List OsString) (command : CargoCommand) (args : List OsString) (reuse : Bool)
    → (parse_invocation line ≡ ok (cargo command args reuse))
      ↔ (line ≡ cargo_line command args reuse)
parse_invocation-cargo_iff line command args reuse = (
  parse_invocation-cargo line command args reuse,
  λ e. rw e (parse-cargo_line command args reuse),
)
