-- ===== src/Prelude/Keys.antt =====
-- Redis keys with different prefixes are different.
use Prim.Native.String.{String, len, slice, ◌++◌}
use mathlib.Core.Path.{◌≡◌, sym, ap, ◌∙◌}
use mathlib.Core.Logic.{◌≢◌}
use text.Mathlib.TextPositions.{slice-append_left}

pub prefixes_differ : (p q e f : String) → len p ≡ len q → p ≢ q → p ++ e ≢ q ++ f
prefixes_differ p q e f same apart h = apart (
    sym (slice-append_left p e)
    ∙ ap (λ s. slice s 0 (len p)) h
    ∙ ap (λ n. slice (q ++ f) 0 n) same
    ∙ slice-append_left q f)
