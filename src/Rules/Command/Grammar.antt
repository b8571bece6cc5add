-- ===== src/Rules/Command/Grammar.antt =====
-- The argument lists of ipfw's grammar, "add ACTION PROTO from HOST [PORT] to HOST [PORT] [in|out]
-- [OPTIONS]", for the rules of `__insert_rule` (closedbsd/config/rules.c).
use closed_bsd.Base.{ℕ, ◌≡◌, ◌⊎◌, Bool, true, false, List, [], ◌∷◌, ◌++◌, ◌==◌, if◌then◌else◌}
use closed_bsd.Rules.Ruleset.{
  Action, allow, deny, divert, fwd, reset, Proto, ip, tcp, udp, icmp, Flow, any, incoming, outgoing,
  setup, established, frag, ssrr, lsrr, ts, echo_reply, dest_unreach, echo_request, Ruleset,
}
use closed_bsd.Text.Words.{IsWord, is_plain}
use closed_bsd.Text.{Text, codes}

-- The argument list of a rule, from ipfw's grammar.
abbrev pub action_words : Action → List Text
action_words allow = codes "allow" ∷ []
action_words deny = codes "deny" ∷ []
action_words divert = codes "divert" ∷ codes "8668" ∷ []
action_words fwd = codes "fwd" ∷ []
action_words reset = codes "reset" ∷ []

abbrev pub proto_word : Proto → Text
proto_word ip = codes "ip"
proto_word tcp = codes "tcp"
proto_word udp = codes "udp"
proto_word icmp = codes "icmp"

abbrev pub port_words : Text → List Text
port_words [] = []
port_words (c ∷ cs) = (c ∷ cs) ∷ []

abbrev pub flow_words : Flow → List Text
flow_words any = []
flow_words incoming = codes "in" ∷ []
flow_words outgoing = codes "out" ∷ []

-- The words of an option, where `echo` is the number of the ICMP type of Echo Request.
abbrev pub option_words : Text → Proto → ℕ → List Text
option_words echo ip o =
    if o == ssrr
    then codes "ipoptions" ∷ codes "ssrr" ∷ []
    else if o == lsrr
    then codes "ipoptions" ∷ codes "lsrr" ∷ []
    else if o == ts
    then codes "ipoptions" ∷ codes "ts" ∷ []
    else []
option_words echo tcp o =
    if o == setup
    then codes "setup" ∷ []
    else if o == established
    then codes "established" ∷ []
    else if o == frag
    then codes "frag" ∷ []
    else []
option_words echo udp o = []
option_words echo icmp o =
    if o == echo_request
    then codes "icmptypes" ∷ echo ∷ []
    else if o == dest_unreach
    then codes "icmptypes" ∷ codes "3" ∷ []
    else if o == echo_reply
    then codes "icmptypes" ∷ codes "0" ∷ []
    else []

abbrev pub has_ports : Proto → Bool
has_ports tcp = true
has_ports udp = true
has_ports _ = false

abbrev pub ports_of : Proto → Text → List Text
ports_of p port = if has_ports p then port_words port else []

-- The argument list of a rule: that of ipfw's manual where `echo` is "8".
abbrev pub argv : Text → Ruleset → List Text
argv echo r =
    codes "/sbin/ipfw"
    ∷ codes "-q"
    ∷ codes "add"
    ∷ (action_words r.action
        ++ (proto_word r.proto
            ∷ codes "from"
            ∷ r.src
            ∷ (ports_of r.proto r.src_port
                ++ (codes "to"
                    ∷ r.dst
                    ∷ (ports_of r.proto r.dst_port
                        ++ (flow_words r.ifs ++ option_words echo r.proto r.option))))))

-- A port is one word, or is left out.
abbrev pub IsPort : Text → Type 0
IsPort p = (p ≡ []) ⊎ IsWord p

-- The texts of a rule are words that mean nothing to sh, and an IP rule has no text of its own behind the options.
pub record IsSpoken (r : Ruleset) : Type 0 where
  pub src_word : IsWord r.src
  pub dst_word : IsWord r.dst
  pub src_port_word : IsPort r.src_port
  pub dst_port_word : IsPort r.dst_port
  pub plain : is_plain (r.src ++ (r.src_port ++ (r.dst ++ r.dst_port))) ≡ true
  pub no_other : r.proto ≡ ip → r.other_a ≡ []
