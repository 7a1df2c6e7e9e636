-- ===== src/Monitor.antt =====
-- internal/monitor/service.go: the memory of the host, the risk that it runs out, and the events about
-- that. A reading is a finite float64 that is not negative: a whole number over a power of two. Times
-- are nanoseconds of the clock; what the reporter returns is an argument.
pub mod Alerts
use sleigh.Prelude.{
  ℕ, zero, suc, ◌+◌, ◌*◌, ◌%◌, Text, Bool, true, false, not, ◌&&◌, ◌||◌, ltb, eqb, Option, none,
  some, List, [], ◌∷◌, ◌++◌, codes, trim_space, is_space, ◌==◌, if◌then◌else◌,
}
use Prim.Native.Nat.{◌^◌}
use sleigh.Prelude.Decimal.{digits_value}
use sleigh.Service.History.{split_on, split_first}
use sleigh.Router.Sandboxes.{HostMemory, unknown, enough, low, tight}

-- mantissa / 2 ^ scale
pub record Reading : Type 0 where
  pub mantissa : ℕ
  pub scale : ℕ

abbrev pub is_below : Reading → Reading → Bool
is_below a b = ltb (a.mantissa * 2 ^ b.scale) (b.mantissa * 2 ^ a.scale)

abbrev of_float : ℕ → ℕ → Reading
of_float mantissa scale = record { mantissa = mantissa; scale = scale }

-- The float64 numbers nearest to 0.08, 0.1, 0.15, 0.2, 0.3 and 0.5.
abbrev pub point_08 : Reading
point_08 = of_float 5764607523034235 56

abbrev pub point_1 : Reading
point_1 = of_float 3602879701896397 55

abbrev pub point_15 : Reading
point_15 = of_float 5404319552844595 55

abbrev pub point_2 : Reading
point_2 = of_float 3602879701896397 54

abbrev pub point_3 : Reading
point_3 = of_float 5404319552844595 54

abbrev pub point_5 : Reading
point_5 = of_float 1 1

pub record MemoryStats : Type 0 where
  pub total_bytes : ℕ
  pub available_bytes : ℕ
  pub swap_total_bytes : ℕ
  pub swap_free_bytes : ℕ
  pub available_ratio : Reading

pub record PsiReport : Type 0 where
  pub some_avg10 : Reading
  pub full_avg10 : Reading

unfoldable pub assess_oom_risk : Reading → PsiReport → Text
assess_oom_risk ratio psi =
    if is_below ratio point_08 || is_below point_2 psi.full_avg10
    then codes "critical"
    else if is_below ratio point_15 || is_below point_5 psi.some_avg10
    then codes "high"
    else if is_below ratio point_3 || is_below point_2 psi.some_avg10
    then codes "medium"
    else codes "low"

-- How the router reads a report; `percent` is the ratio as it prints it.
unfoldable pub host_memory : Option (Reading × Text) → HostMemory
host_memory none = unknown
host_memory (some (ratio, percent)) =
    if is_below ratio point_1
    then low percent
    else if is_below ratio point_15
    then tight percent
    else enough

-- strings.Fields
abbrev add_char : ℕ → Bool → List Text → List Text
add_char c true words = [] ∷ words
add_char c false [] = (c ∷ []) ∷ []
add_char c false (w ∷ words) = (c ∷ w) ∷ words

abbrev pieces : Text → List Text
pieces [] = [] ∷ []
pieces (c ∷ s) = add_char c (is_space c) (pieces s)

abbrev not_empty : List Text → List Text
not_empty [] = []
not_empty ([] ∷ words) = not_empty words
not_empty ((c ∷ w) ∷ words) = (c ∷ w) ∷ not_empty words

unfoldable pub fields : Text → List Text
fields s = not_empty (pieces s)

-- strconv.ParseUint of a word, times 1024 on uint64.
abbrev kilobytes : Option ℕ → Option ℕ
kilobytes none = none
kilobytes (some n) = if ltb n (2 ^ 64) then some (n * 1024 % 2 ^ 64) else none

abbrev value_of : List Text → Option ℕ
value_of [] = none
value_of (w ∷ words) = kilobytes (digits_value 0 w)

abbrev has_colon : Text → Bool
has_colon [] = false
has_colon (c ∷ s) = eqb c b':' || has_colon s

-- memMap[key] = value, in the order of the lines.
abbrev put_value : Text → Option ℕ → List (Text × ℕ) → List (Text × ℕ)
put_value key none m = m
put_value key (some n) m = (key, n) ∷ m

abbrev put_pair : Text × Text → List (Text × ℕ) → List (Text × ℕ)
put_pair (key, rest) m = put_value key (value_of (fields (trim_space rest))) m

unfoldable pub read_line : Text → List (Text × ℕ) → List (Text × ℕ)
unfolding fields digits_value split_first
read_line line m =
    if has_colon (trim_space line) then put_pair (split_first b':' (trim_space line)) m else m

unfoldable pub read_lines : List Text → List (Text × ℕ) → List (Text × ℕ)
unfolding read_line
read_lines [] m = m
read_lines (l ∷ ls) m = read_lines ls (read_line l m)

-- memMap[key], zero where the key is missing; the last line of a key is first in the list.
abbrev pub value_at : Text → List (Text × ℕ) → ℕ
value_at key [] = 0
value_at key ((k, n) ∷ m) = if k == key then n else value_at key m

-- The content of /proc/meminfo; `ratio` divides two uint64 numbers as float64 numbers.
unfoldable pub read_memory : (ℕ → ℕ → Reading) → Text → MemoryStats
unfolding read_lines split_on
read_memory ratio content =
    let m = read_lines (split_on 10 content) [] in
    let total = value_at (codes "MemTotal") m in
    let available = value_at (codes "MemAvailable") m in
    record {
      total_bytes = total;
      available_bytes = available;
      swap_total_bytes = value_at (codes "SwapTotal") m;
      swap_free_bytes = value_at (codes "SwapFree") m;
      available_ratio = if ltb 0 total then ratio available total else of_float 0 0;
    }

-- The reporter, if there is one, is `target` here. The state: the risk and the time of the last event.
pub record Monitor : Type 0 where
  pub last_risk : Text
  pub last_sent : Option ℕ

pub record AlertStatus : Type 0 where
  pub target : Text
  pub dispatched : Bool
  pub error : Text

abbrev pub within_minute : ℕ → Option ℕ → Bool
within_minute now none = false
within_minute now (some sent) = ltb now (sent + 60000000000)

abbrev pub not_sent : Text → Text → AlertStatus
not_sent target error = record { target = target; dispatched = false; error = error }

abbrev pub send : Text → Text → ℕ → Option Text → Monitor → AlertStatus × Monitor
send target risk now none m = (
  record { target = target; dispatched = true; error = [] },
  record { last_risk = risk; last_sent = some now },
)
send target risk now (some error) m = (not_sent target error, m)

-- `answer` is the error that the reporter's Report returns, if it is called.
unfoldable pub dispatch_oom_event :
    Option Text → Text → ℕ → Option Text → Monitor → AlertStatus × Monitor
dispatch_oom_event none risk now answer m = (not_sent [] [], m)
dispatch_oom_event (some target) risk now answer m =
    if not (risk == codes "high" || risk == codes "critical")
    then (not_sent target [], m)
    else if m.last_risk == risk && within_minute now m.last_sent
    then (not_sent target [], m)
    else send target risk now answer m

-- NewService
abbrev pub new_monitor : Monitor
new_monitor = record { last_risk = []; last_sent = none }
