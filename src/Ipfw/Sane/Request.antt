-- ===== src/Ipfw/Sane/Request.antt =====
-- The rules among what `ipfw_main` asks the kernel for.
use closed_bsd.Base.{◌≡◌, Bool, List, [], ◌∷◌, arith}
use closed_bsd.Ipfw.Add.{add}
use closed_bsd.Ipfw.Dispatch.{
  Globals, initial, Request, add_rule, read_flags, read_pipe, swapped, dispatch, start, ipfw_main,
}
use closed_bsd.Ipfw.Exits.{done, Holds, Holds-done, Holds->>=, Holds-any}
use closed_bsd.Ipfw.Libc.{Libc}
use closed_bsd.Ipfw.Rule.{Rule}
use closed_bsd.Ipfw.Sane.Ports.{HasWidths}
use closed_bsd.Ipfw.Sane.{IsSane, add-IsSane}
use closed_bsd.Text.{Text}

abbrev AsksSane : Libc → Request → Type 0
AsksSane libc (add_rule rule) = IsSane libc rule
AsksSane libc _ = Unit

dispatch-AsksSane :
    (libc : Libc) (g : Globals) (word : Text) (av : List Text)
    → HasWidths libc
    → Holds (AsksSane libc) (dispatch libc g word av)
unfolding dispatch
dispatch-AsksSane libc g word av widths =
    let added =
      Holds->>= (IsSane libc) (AsksSane libc) (add libc av) (λ rule. done (add_rule rule))
        (add-IsSane libc widths av) (λ rule h. h) in
    ground (arith, added)

start-AsksSane :
    (libc : Libc) (g : Globals) (av : List Text)
    → HasWidths libc
    → Holds (AsksSane libc) (start libc g av)
start-AsksSane libc g [] widths = tt
start-AsksSane libc g (word ∷ av) widths = dispatch-AsksSane libc g word av widths

main-AsksSane :
    (libc : Libc) (tty : Bool) (av : List Text)
    → HasWidths libc
    → Holds (AsksSane libc) (ipfw_main libc tty av)
unfolding ipfw_main
main-AsksSane libc tty [] widths = tt
main-AsksSane libc tty (name ∷ av) widths =
    Holds->>= (λ s. Unit) _ (read_flags (initial tty) av) _
      (Holds-any (read_flags (initial tty) av))
      (λ s _. start-AsksSane libc (read_pipe s.0 s.1).0 (swapped (read_pipe s.0 s.1).1) widths)

-- Where the databases keep to 16 bits for a port and 8 for a protocol, every rule that ipfw asks the
-- kernel for, whatever the argument list, keeps to the widths and arrays of its fields: number,
-- protocol, ports and ICMP types. It sends a RST for TCP only, has ports for TCP and UDP only, and,
-- unless it is "check-state", goes in some direction and matches no fragments by ports or TCP flags.
pub ipfw_main-IsSane :
    (libc : Libc) (tty : Bool) (av : List Text) (rule : Rule)
    → HasWidths libc
    → ipfw_main libc tty av ≡ done (add_rule rule)
    → IsSane libc rule
ipfw_main-IsSane libc tty av rule widths h =
    Holds-done (AsksSane libc) (ipfw_main libc tty av) (add_rule rule)
      (main-AsksSane libc tty av widths) h
