-- ===== src/Process.antt =====
-- How the programs under cmd end: `main` returns, after its deferred calls, or the process ends at
-- once, by `os.Exit(1)`, `log.Fatalf` or flags that do not parse, and no deferred call is made.
use backend_assessment.Prelude.{Option, none, some, String, List, [], ◌∷◌}

pub data Exit : Type 0 where
  returned exited : Exit

-- What the error of the last part of a `main` makes of the process: `Fatalf`, or the rest of `main`
-- with the deferred calls.
unfoldable pub conclude {ℓ} : {F : Type ℓ} {W : Type 0} → (W → W) → Option F × W → Exit × W
conclude close (none, w) = (returned, close w)
conclude close (some e, w) = (exited, w)

-- `Println` of one line after another.
unfoldable pub print_all : {V : Type 0} → (String → V → V) → List String → V → V
print_all print [] v = v
print_all print (line ∷ lines) v = print_all print lines (print line v)
