-- ===== src/Loaded/Refused.antt =====
-- The command of a forward ends ipfw before it asks the kernel for anything.
use closed_bsd.Base.{
  ℕ, ◌≤◌, ◌≡◌, refl, ◌∙◌, ap, ◌≢◌, ◌⊎◌, inl, inr, Bool, true, false, List, ◌∷◌, ◌++◌, sym,
  if◌then◌else◌,
}
use closed_bsd.Fault.{ok}
use closed_bsd.Ipfw.Action.{
  read_number, read_prob, read_action, by_keyword, forwarded, forward_port, target_parts,
}
use closed_bsd.Ipfw.Add.{add, goes_on, read_body, read_hosts}
use closed_bsd.Ipfw.Address.{fill_ip}
use closed_bsd.Ipfw.Dispatch.{Request, ipfw_main}
use closed_bsd.Ipfw.Exits.{done, errx, ex_dataerr, ◌>>=◌, >>=-eq-done}
use closed_bsd.Ipfw.Head.{sends_rst}
use closed_bsd.Ipfw.Libc.{Libc}
use closed_bsd.Ipfw.Numbers.{starts_with_digit, is_digit}
use closed_bsd.Ipfw.Rule as Kernel
use closed_bsd.Loaded.Forward.{IsGlued, read_from-IsGlued}
use closed_bsd.Loaded.Spec.{IsUsual}
use closed_bsd.Loaded.Start.{ipfw_main-add, body-tcp, body-udp}
use closed_bsd.Rules.Command.Forward.{
  fwd_command-argv, IsSpokenFwd, from_words, to_words, proto_word,
}
use closed_bsd.Rules.Command.FwdBounds.{fwd_size}
use closed_bsd.Rules.Command.{fwd_command}
use closed_bsd.Rules.Ruleset.{Proto, tcp, udp, Ruleset}
use closed_bsd.Text.Words.{words}
use closed_bsd.Text.{Text, codes, starts_with}

abbrev forward_to : ℕ → ℕ → Kernel.Rule
forward_to target port = record Kernel.zeroed { command = Kernel.forward target port }

errx-ne-done : (code : ℕ) (rule : Kernel.Rule) → errx code ≢ done rule
errx-ne-done code rule e = cc

unless-done {ℓ} :
    {V : Type ℓ} (c : Bool) (code : ℕ) (v w : V)
    → (if c then errx code else done v) ≡ done w
    → w ≡ v
unless-done true code v w h = cc
unless-done false code v w h = cc

forwarded-done :
    (libc : Libc) (word : Text) (av : List Text) (s : Kernel.Parsed)
    → forwarded libc Kernel.zeroed (word ∷ av) ≡ done s
    → (target : ℕ) × (port : ℕ) × (s ≡ (forward_to target port, av))
unfolding forwarded
forwarded-done libc word av s h =
    let first = >>=-eq-done (forward_port libc (target_parts word).1) _ h in
    let second = >>=-eq-done (fill_ip libc (target_parts word).0) _ first.2 in
    (second.0.0, first.0, unless-done _ ex_dataerr _ s second.2)

add-fwd :
    (libc : Libc) (word : Text) (av : List Text)
    → add libc (codes "fwd" ∷ word ∷ av) ≡ (
        forwarded libc Kernel.zeroed (word ∷ av) >>= λ s.
        (if goes_on s.0.command then read_body libc s.0 s.1 else done s.0))
unfolding add read_number starts_with_digit is_digit read_prob read_action by_keyword goes_on
    starts_with
add-fwd libc word av = refl

named_proto :
    (libc : Libc) (p : Proto) (rule : Kernel.Rule) (av : List Text)
    → IsUsual libc
    → (p ≡ tcp) ⊎ (p ≡ udp)
    → sends_rst rule.command ≡ false
    → (n : ℕ) × (read_body libc rule (proto_word p ∷ av)
        ≡ read_hosts libc (record rule { prot = n }) av)
named_proto libc tcp rule av usual h r = (_, body-tcp libc usual rule av)
named_proto libc udp rule av usual h r = (_, body-udp libc usual rule av r)
named_proto libc _ rule av usual h r = elim h [ inl e ↦ cc | inr e ↦ cc ]

hosts-IsGlued :
    (libc : Libc) (rule : Kernel.Rule) (src p : Text) (av : List Text)
    → IsGlued libc src p
    → (code : ℕ) × (read_hosts libc rule (codes "from" ∷ (from_words src p ++ av)) ≡ errx code)
unfolding read_hosts
hosts-IsGlued libc rule src p av h =
    let failed = read_from-IsGlued libc rule src p av h in
    (failed.0, rw (failed.1, read_hosts) refl)

-- Whatever the target of the forward, `add` comes to no rule.
add-IsGlued :
    (libc : Libc) (target : Text) (p : Proto) (src port : Text) (av : List Text)
    (rule : Kernel.Rule)
    → IsUsual libc
    → (p ≡ tcp) ⊎ (p ≡ udp)
    → IsGlued libc src port
    → add libc (codes "fwd" ∷ target ∷ proto_word p ∷ codes "from" ∷ (from_words src port ++ av))
      ≢ done rule
unfolding goes_on sends_rst
add-IsGlued libc target p src port av rule usual h g came =
    let behind = proto_word p ∷ codes "from" ∷ (from_words src port ++ av) in
    let first =
      >>=-eq-done (forwarded libc Kernel.zeroed (target ∷ behind)) _
        (sym (add-fwd libc target behind) ∙ came) in
    let at = forwarded-done libc target behind first.0 first.1 in
    let named = named_proto libc p (forward_to at.0 at.1) _ usual h refl in
    let failed =
      hosts-IsGlued libc (record (forward_to at.0 at.1) { prot = named.0 }) src port av g in
    errx-ne-done failed.0 rule (
      sym failed.1
      ∙ sym named.1
      ∙ ap (λ (s : Kernel.Parsed). if goes_on s.0.command then read_body libc s.0 s.1 else done s.0)
          (sym at.2)
      ∙ first.2)

-- A forward of TCP or UDP has texts of at most 192 bytes without blanks, of letters, digits and
-- !%+,-./:@_, and addresses that are not empty. Either it has no source port, and ipfw reads no
-- host from its source address with "to" at its end, which is no start of "not" or "me"; or its
-- source port is in digits, of at most 4 bytes, names no service with "to" at its end, and ipfw
-- reads its source address. It gets a command from the form, but under usual protocol and service
-- files ipfw hands nothing to the kernel when the command runs.
pub fwd_command-refused :
    (libc : Libc) (tty : Bool) (r : Ruleset)
    → IsUsual libc
    → (r.proto ≡ tcp) ⊎ (r.proto ≡ udp)
    → fwd_size r ≤ 192
    → IsSpokenFwd r
    → IsGlued libc r.src r.src_port
    → (cmd : Text) × (fwd_command r ≡ ok cmd)
      × ((request : Request) → ipfw_main libc tty (words cmd) ≢ done request)
fwd_command-refused libc tty r usual p n h g =
    let made = fwd_command-argv r p n h in
    (
      made.0,
      made.1,
      (λ request came.
          let read = ap (ipfw_main libc tty) (sym made.2) ∙ came in
          let asked = >>=-eq-done _ _ (sym (ipfw_main-add libc tty (codes "fwd") _) ∙ read) in
          add-IsGlued libc _ r.proto r.src r.src_port (to_words r.dst r.dst_port) asked.0 usual p g
            asked.1),
    )
