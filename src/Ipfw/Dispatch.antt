-- ===== src/Ipfw/Dispatch.antt =====
-- `ipfw_main`, `delete`, `zero` and `resetlog` (sbin/ipfw/ipfw.c): the flags in front, and the command that they are
-- for. What the kernel is asked for is a value.
use Prim.Native.Nat.{◌^◌}
use closed_bsd.Base.{
  ℕ, ◌+◌, ◌%◌, Bool, true, false, not, ◌&&◌, ◌||◌, List, [], ◌∷◌, Option, none, some, ◌==◌,
  if◌then◌else◌,
}
use closed_bsd.Ipfw.Add.{add}
use closed_bsd.Ipfw.Exits.{Exit, done, errx, ex_usage, ex_dataerr, ◌>>=◌}
use closed_bsd.Ipfw.Fields.{spells}
use closed_bsd.Ipfw.Libc.{Libc}
use closed_bsd.Ipfw.Numbers.{atoi, starts_with_digit}
use closed_bsd.Ipfw.Rule.{Rule}
use closed_bsd.Text.{Text}

-- The globals that the flags set; `do_pipe` is 0, 1 for "pipe" or 2 for "queue".
pub record Globals : Type 0 where
  pub do_sort : ℕ
  pub do_acct : Bool
  pub do_dynamic : Bool
  pub do_expired : Bool
  pub do_force : Bool
  pub do_resolv : Bool
  pub do_quiet : Bool
  pub do_time : Bool
  pub verbose : ℕ
  pub do_pipe : ℕ

-- At the start, the flush of a program without a terminal is forced.
abbrev pub initial : Bool → Globals
initial tty = record {
  do_sort = 0;
  do_acct = false;
  do_dynamic = false;
  do_expired = false;
  do_force = not tty;
  do_resolv = false;
  do_quiet = false;
  do_time = false;
  verbose = 0;
  do_pipe = 0;
}

-- What "zero" and "resetlog" go over: all rules, or each number in front of the first word that is
-- none, where errx then ends the program.
pub data Sweep : Type 0 where
  all_rules : Sweep
  each_rule : List ℕ → Option ℕ → Sweep

-- What ipfw does: a rule for IP_FW_ADD, numbers for IP_FW_DEL or IP_DUMMYNET_DEL, a flush, or the
-- question before one, the rules whose counters or logs are reset; and the commands whose arguments are
-- handed on.
pub data Request : Type 0 where
  add_rule : Rule → Request
  delete_rules delete_pipes : List ℕ → Request
  flush_rules flush_pipes ask_flush : Request
  zero_counters reset_log : Sweep → Request
  configure_pipe list_rules show_rules : List Text → Request

unfoldable pub one_letter : Globals → ℕ → Exit Globals
one_letter g c =
    if c == b'a'
    then done (record g { do_acct = true })
    else if c == b'd'
    then done (record g { do_dynamic = true })
    else if c == b'e'
    then done (record g { do_expired = true })
    else if c == b'f'
    then done (record g { do_force = true })
    else if c == b'N'
    then done (record g { do_resolv = true })
    else if c == b'q'
    then done (record g { do_quiet = true })
    else if c == b't'
    then done (record g { do_time = true })
    else if c == b'v'
    then done (record g { verbose = g.verbose + 1 })
    else errx ex_usage

-- The letters of one word of flags. The last "s" may ask for the next word.
unfoldable pub letters : Globals → Text → Exit (Globals × Bool)
unfolding one_letter
letters g [] = done (g, false)
letters g (c ∷ []) = if c == b's' then done (g, true) else (one_letter g c >>= λ g. done (g, false))
letters g (c ∷ d ∷ cs) =
    let rest = (one_letter g c >>= λ g. letters g (d ∷ cs)) in
    if c == b's' then done (record g { do_sort = atoi (d ∷ cs) }, false) else rest

-- Whether a word is one of flags: a dash and more. Behind a second dash the flags end.
abbrev pub is_flags : Text → Bool
is_flags [] = false
is_flags (c ∷ []) = false
is_flags (c ∷ d ∷ cs) = c == b'-'

abbrev pub ends_flags : Text → Bool
ends_flags (c ∷ d ∷ cs) = d == b'-'
ends_flags _ = false

abbrev pub behind_dash : Text → Text
behind_dash [] = []
behind_dash (c ∷ cs) = cs

-- getopt(ac, av, "s:adefNqtv") until it returns -1: the globals, and `av + optind`.
unfoldable pub read_flags : Globals → List Text → Exit (Globals × List Text)
unfolding letters
read_flags g [] = done (g, [])
read_flags g (word ∷ []) = elim (is_flags word) [
  | false ↦ done (g, word ∷ [])
  | true ↦ elim (ends_flags word) [
    | true ↦ done (g, [])
    | false ↦ letters g (behind_dash word) >>= λ s. (if s.1 then errx ex_usage else done (s.0, []))
  ]
]
read_flags g (word ∷ next ∷ av) = elim (is_flags word) [
  | false ↦ done (g, word ∷ next ∷ av)
  | true ↦ elim (ends_flags word) [
    | true ↦ done (g, next ∷ av)
    | false ↦ letters g (behind_dash word) >>= λ s.
        (let sorted = read_flags (record s.0 { do_sort = atoi next }) av in
          let more = read_flags s.0 (next ∷ av) in if s.1 then sorted else more)
  ]
]

-- "pipe" or "queue" in front of the command.
abbrev pub read_pipe : Globals → List Text → Globals × List Text
read_pipe g [] = (g, [])
read_pipe g (word ∷ av) =
    if spells word "pipe"
    then (record g { do_pipe = 1 }, av)
    else if spells word "queue"
    then (record g { do_pipe = 2 }, av)
    else (g, word ∷ av)

-- A number in front of the command changes places with it.
abbrev pub swapped : List Text → List Text
swapped (word ∷ next ∷ av) = if starts_with_digit word then next ∷ word ∷ av else word ∷ next ∷ av
swapped av = av

-- `delete`: the numbers up to the first word that does not start with a digit.
unfoldable pub numbers : List Text → List ℕ
numbers [] = []
numbers (word ∷ av) =
    let rest = numbers av in if starts_with_digit word then atoi word % 2 ^ 16 ∷ rest else []

unfoldable pub stops_with : ℕ → List Text → Option ℕ
stops_with code [] = none
stops_with code (word ∷ av) =
    let rest = stops_with code av in if starts_with_digit word then rest else some code

-- The arguments of `zero` and `resetlog`, which differ in the code of a word that is no number.
unfoldable pub sweep : ℕ → List Text → Sweep
unfolding numbers stops_with
sweep code [] = all_rules
sweep code (word ∷ av) = each_rule (numbers (word ∷ av)) (stops_with code (word ∷ av))

abbrev zero_rules : List Text → Request
zero_rules av = zero_counters (sweep ex_usage av)

abbrev reset_rules : List Text → Request
reset_rules av = reset_log (sweep ex_dataerr av)

abbrev delete : Globals → List Text → Request
delete g av = if g.do_pipe == 0 then delete_rules (numbers av) else delete_pipes (numbers av)

abbrev flush : Globals → Request
flush g =
    if g.do_force || g.do_quiet
    then if g.do_pipe == 0 then flush_rules else flush_pipes
    else ask_flush

-- The chain of commands.
unfoldable pub dispatch : Libc → Globals → Text → List Text → Exit Request
unfolding add numbers sweep
dispatch libc g word av =
    if spells word "add"
    then (add libc av >>= λ rule. done (add_rule rule))
    else if not (g.do_pipe == 0) && spells word "config"
    then done (configure_pipe av)
    else if spells word "delete"
    then done (delete g av)
    else if spells word "flush"
    then done (flush g)
    else if spells word "zero"
    then done (zero_rules av)
    else if spells word "resetlog"
    then done (reset_rules av)
    else if spells word "print" || spells word "list"
    then done (list_rules av)
    else if spells word "show"
    then done (show_rules av)
    else errx ex_usage

abbrev pub start : Libc → Globals → List Text → Exit Request
start libc g [] = errx ex_usage
start libc g (word ∷ av) = dispatch libc g word av

-- `ipfw_main` on an argument list, the name of the program in front.
unfoldable pub ipfw_main : Libc → Bool → List Text → Exit Request
unfolding read_flags dispatch
ipfw_main libc tty [] = errx ex_usage
ipfw_main libc tty (name ∷ av) = read_flags (initial tty) av >>= λ s.
    (let chosen = read_pipe s.0 s.1 in start libc chosen.0 (swapped chosen.1))
