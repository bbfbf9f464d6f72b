-- ===== src/Host.antt =====
-- What the program calls and this development does not define: the platform's text, time and hash
-- functions. Each is an argument of the definitions that use it.
use memoar.Prelude.{ℕ, Bool, false, List, Option, none, some, Ordering}
use memoar.Prelude.Tests.{leb}
use memoar.Prelude.Str.{Str}

pub record Host : Type 0 where
  -- `createHash("sha1")` over bytes
  pub sha1 : List ℕ → List ℕ
  -- `createHash("sha256").update(text).digest("hex")`
  pub sha256 : Str → Str
  -- `Buffer.from(text, "utf8")`
  pub utf8 : Str → List ℕ
  -- `new Date(text).getTime()`; a text that is no date compares false with every time
  pub time_of : Str → Option ℕ
  -- `new Date(time).toISOString()`
  pub to_iso : ℕ → Str
  -- `Buffer.from(text).toString("base64url")` and its inverse
  pub to_base64url : Str → Str
  pub from_base64url : Str → Str
  -- `left.localeCompare(right)`
  pub locale_compare : Str → Str → Ordering
  -- `text.trim()`, `text.toLowerCase()`
  pub trim : Str → Str
  pub to_lower : Str → Str

-- `a || b` over two comparisons
abbrev pub then_by : Ordering → Ordering → Ordering
then_by Ordering.eq o = o
then_by Ordering.lt _ = Ordering.lt
then_by Ordering.gt _ = Ordering.gt

-- `new Date(text) >= time` and `new Date(text) <= time`
abbrev pub at_or_after : Option ℕ → ℕ → Bool
at_or_after none t = false
at_or_after (some s) t = leb t s

abbrev pub at_or_before : Option ℕ → ℕ → Bool
at_or_before none t = false
at_or_before (some s) t = leb s t
