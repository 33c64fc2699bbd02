-- ===== src/Linux/Run/Capture.antt =====
-- cage-linux/src/backend/process.rs: `read_capped`, which keeps the beginning of what a pipe gives and
-- raises a flag when there is more.
use cargo_cage.Base.{
  ℕ, zero, suc, ◌-◌, ◌*◌, ◌≡◌, refl, ap, ◌∙◌, min, Bool, true, ◌||◌, List, [], ◌∷◌, ◌++◌, ok, err,
  ◌>>=◌, ◌>>◌, map_err, reject_if, ltb, length, length-append, arith, if◌then◌else◌,
}
use cargo_cage.Os.Text.{OsString}
use cargo_cage.Os.Fs.{IoError, IoResult}
use cargo_cage.Core.Error.{CageResult, io, named, sandbox_setup}
use cargo_cage.Linux.Resources.{ExitStatus}

-- What a call of `read` gives. No bytes stand for the end of the file.
pub data Read : Type 0 where
  got : OsString → Read
  broken : IoError → Read

abbrev pub max_captured_output : ℕ
max_captured_output = 1024 * 1024

-- `&buffer[..n]`
unfoldable pub take : ℕ → OsString → OsString
take zero bytes = []
take (suc n) [] = []
take (suc n) (b ∷ bytes) = b ∷ take n bytes

module _ (cap : ℕ) where
  -- The loop with the output and the flag so far. Where the reads end, so does the file.
  unfoldable pub read_capped : OsString → Bool → List Read → IoResult OsString × Bool
  unfolding take
  read_capped output over_limit [] = (ok output, over_limit)
  read_capped output over_limit (broken error ∷ reads) = (err error, true)
  read_capped output over_limit (got [] ∷ reads) = (ok output, over_limit)
  read_capped output over_limit (got (b ∷ bytes) ∷ reads) =
      let remaining = cap - length output in
      let read = length (b ∷ bytes) in
      read_capped (output ++ take (min read remaining) (b ∷ bytes))
        (if ltb remaining read then true else over_limit) reads

-- What the two readers hand over when they are joined.
unfoldable pub hand_over :
    ExitStatus × Bool
    → IoResult OsString × Bool
    → IoResult OsString × Bool
    → CageResult ((ExitStatus × OsString × OsString) × Bool)
hand_over (status, expired) (stdout, more_stdout) (stderr, more_stderr) = do
  out ← map_err stdout (λ _. io "could not read captured Bubblewrap stdout" (named "Bubblewrap"))
  errors ← map_err stderr (λ _. io "could not read captured Bubblewrap stderr" (named "Bubblewrap"))
  reject_if (more_stdout || more_stderr) (
      sandbox_setup (named "Bubblewrap discovery output")
        "captured discovery output must stay below the safety limit")
  ok ((status, out, errors), expired)

-- All that the pipe gives, or its error.
unfoldable pub delivered : OsString → List Read → IoResult OsString
delivered before [] = ok before
delivered before (broken error ∷ reads) = err error
delivered before (got [] ∷ reads) = ok before
delivered before (got (b ∷ bytes) ∷ reads) = delivered (before ++ b ∷ bytes) reads

-- The beginning of what was delivered, and whether there was more.
unfoldable pub capped : ℕ → IoResult OsString → IoResult OsString × Bool
unfolding take
capped cap (ok bytes) = (ok (take cap bytes), ltb cap (length bytes))
capped cap (err error) = (err error, true)

length-take : (n : ℕ) (bytes : OsString) → length (take n bytes) ≡ min n (length bytes)
unfolding take
length-take zero bytes = omega arith
length-take (suc n) [] = omega arith
length-take (suc n) (b ∷ bytes) = omega (arith, length-take n bytes)

take_nothing : (n : ℕ) → take n [] ≡ []
unfolding take
take_nothing zero = refl
take_nothing (suc n) = refl

take-min : (n : ℕ) (bytes : OsString) → take (min (length bytes) n) bytes ≡ take n bytes
unfolding take
take-min zero bytes =
    let nothing : min (length bytes) 0 ≡ 0 = omega arith in ap (λ k. take k bytes) nothing
take-min (suc n) [] = take_nothing (min 0 (suc n))
take-min (suc n) (b ∷ bytes) =
    let less : min (suc (length bytes)) (suc n) ≡ suc (min (length bytes) n) = omega arith in
    ap (λ k. take k (b ∷ bytes)) less ∙ ap (λ r. b ∷ r) (take-min n bytes)

take-append :
    (cap : ℕ) (before bytes : OsString)
    → take cap before ++ take (cap - length (take cap before)) bytes ≡ take cap (before ++ bytes)
unfolding take
take-append cap [] bytes =
    let all : cap - 0 ≡ cap = omega arith in rw (take_nothing cap) (ap (λ k. take k bytes) all)
take-append zero (b ∷ before) bytes = refl
take-append (suc cap) (b ∷ before) bytes =
    let less : suc cap - suc (length (take cap before)) ≡ cap - length (take cap before) =
      omega arith in
    ap (λ r. b ∷ r) (ap (λ k. take cap before ++ take k bytes) less ∙ take-append cap before bytes)

-- One round of the loop.
kept-append :
    (cap : ℕ) (before bytes : OsString)
    → take cap before ++ take (min (length bytes) (cap - length (take cap before))) bytes
      ≡ take cap (before ++ bytes)
kept-append cap before bytes =
    ap (λ r. take cap before ++ r) (take-min (cap - length (take cap before)) bytes)
    ∙ take-append cap before bytes

over-append :
    (cap : ℕ) (before bytes : OsString)
    → (if ltb (cap - length (take cap before)) (length bytes)
        then true
        else ltb cap (length before))
      ≡ ltb cap (length (before ++ bytes))
over-append cap before bytes = ground (arith, length-take cap before, length-append before bytes)

-- Reading with a cap keeps just the beginning of all that the pipe gives, and tells whether there was
-- more; an error of the pipe is passed on with the flag raised.
pub read_capped-delivered :
    (cap : ℕ) (before : OsString) (reads : List Read)
    → read_capped cap (take cap before) (ltb cap (length before)) reads
      ≡ capped cap (delivered before reads)
unfolding read_capped delivered capped
read_capped-delivered cap before [] = refl
read_capped-delivered cap before (broken error ∷ reads) = refl
read_capped-delivered cap before (got [] ∷ reads) = refl
read_capped-delivered cap before (got (b ∷ bytes) ∷ reads) =
    rw (kept-append cap before (b ∷ bytes), over-append cap before (b ∷ bytes))
      (read_capped-delivered cap (before ++ b ∷ bytes) reads)
