-- ===== src/Rules/Command/Words.antt =====
-- The commands as the argument lists that sh hands to ipfw, against the grammar of ipfw's
-- "add ACTION PROTO from HOST [PORT] to HOST [PORT] [in|out] [OPTIONS]".
use closed_bsd.Base.{ℕ, ◌≤◌, ◌≡◌, refl, ap, ◌∙◌, inl, inr, List, [], ◌∷◌, ◌++◌, append_assoc, arith}
use closed_bsd.Fault.{ok, ok-injective}
use closed_bsd.Rules.Command.{
  opening, tail_pieces, port_pieces, flow_pieces, ip_option, tcp_option, icmp_option, command,
}
use closed_bsd.Rules.Command.Bounds.{assembled, text_size, command-fits}
use closed_bsd.Rules.Command.Grammar.{
  action_words, proto_word, port_words, flow_words, option_words, ports_of, argv, IsPort, IsSpoken,
}
use closed_bsd.Rules.Ruleset.{
  Action, allow, deny, divert, reset, Proto, ip, tcp, udp, icmp, Flow, any, incoming, outgoing,
  Ruleset,
}
use closed_bsd.Text.Cat.{join}
use closed_bsd.Text.Words.{words, IsWord, IsBreak, words-IsWord, words_blank, IsWord-cons}
use closed_bsd.Text.{Text, codes, contains}

abbrev tail_words : List Text → List Text
tail_words ss = words (join ss)

port_pieces-cons : (c : ℕ) (p : Text) → port_pieces (c ∷ p) ≡ codes " " ∷ (c ∷ p) ∷ []
port_pieces-cons c p = ground arith

join-ports-IsBreak :
    (p : Text) (ss : List Text) → IsBreak (join ss) → IsBreak (join (port_pieces p ++ ss))
join-ports-IsBreak [] ss b = b
join-ports-IsBreak (c ∷ p) ss b = rw (port_pieces-cons c p) refl

-- A word, an optional port, and what follows.
words-ports :
    (w p : Text) (ss : List Text)
    → IsWord w
    → IsPort p
    → IsBreak (join ss)
    → words (w ++ join (port_pieces p ++ ss)) ≡ w ∷ (port_words p ++ tail_words ss)
words-ports w [] ss h i b = words-IsWord w (join ss) h b
words-ports w (c ∷ p) ss h (inl e) b = cc
words-ports w (c ∷ p) ss h (inr i) b = rw (port_pieces-cons c p) (
    words-IsWord w (b' ' ∷ ((c ∷ p) ++ join ss)) h refl
    ∙ ap (◌∷◌ w) (words_blank ((c ∷ p) ++ join ss) ∙ words-IsWord (c ∷ p) (join ss) i b))

-- "to", an address, an optional port, and what follows.
words-to :
    (dst p : Text) (ss : List Text)
    → IsWord dst
    → IsPort p
    → IsBreak (join ss)
    → tail_words (codes " to " ∷ dst ∷ (port_pieces p ++ ss))
      ≡ codes "to" ∷ dst ∷ (port_words p ++ tail_words ss)
unfolding words
words-to dst p ss h i b = ap (◌∷◌ (codes "to")) (words-ports dst p ss h i b)

words-flow :
    (f : Flow) (ss : List Text)
    → IsBreak (join ss)
    → (tail_words (flow_pieces f (codes " in") (codes " out") ++ ss)
        ≡ flow_words f ++ tail_words ss)
      × IsBreak (join (flow_pieces f (codes " in") (codes " out") ++ ss))
unfolding words contains
words-flow any ss b = (refl, b)
words-flow incoming ss b = (words-IsWord (codes "in") (join ss) (IsWord-cons _ _ refl) b, refl)
words-flow outgoing ss b = (words-IsWord (codes "out") (join ss) (IsWord-cons _ _ refl) b, refl)

-- The options stand last.
words-ip_option :
    (o : ℕ)
    → (tail_words (ip_option o ++ []) ≡ option_words (codes "5") ip o)
      × IsBreak (join (ip_option o ++ []))
unfolding words
words-ip_option o = (ground arith, ground arith)

words-tcp_option :
    (o : ℕ)
    → (tail_words (tcp_option o) ≡ option_words (codes "5") tcp o) × IsBreak (join (tcp_option o))
unfolding words
words-tcp_option o = (ground arith, ground arith)

words-icmp_option :
    (o : ℕ)
    → (tail_words (icmp_option o) ≡ option_words (codes "5") icmp o)
      × IsBreak (join (icmp_option o))
unfolding words
words-icmp_option o = (ground arith, ground arith)

-- The words that the opening holds, and the blank behind them.
words-opening :
    (p : Proto) (a : Action) {o : Text} (t : Text)
    → opening p a ≡ ok o
    → words (o ++ (codes "from " ++ t))
      ≡ codes "/sbin/ipfw"
        ∷ codes "-q"
        ∷ codes "add"
        ∷ (action_words a ++ (proto_word p ∷ codes "from" ∷ words t))
unfolding opening words
words-opening ip allow t e = rw (← ok-injective e)
words-opening ip deny t e = rw (← ok-injective e)
words-opening ip divert t e = rw (← ok-injective e)
words-opening tcp allow t e = rw (← ok-injective e)
words-opening tcp reset t e = rw (← ok-injective e)
words-opening tcp deny t e = rw (← ok-injective e)
words-opening udp allow t e = rw (← ok-injective e)
words-opening udp deny t e = rw (← ok-injective e)
words-opening icmp allow t e = rw (← ok-injective e)
words-opening icmp deny t e = rw (← ok-injective e)
words-opening _ _ t e = cc

-- Behind "from ": the addresses, the ports and what follows them.
words-hosts_and_ports :
    (r : Ruleset) (ss : List Text)
    → IsSpoken r
    → IsBreak (join ss)
    → words (
        r.src
        ++ join ((port_pieces r.src_port ++ (codes " to " ∷ r.dst ∷ port_pieces r.dst_port)) ++ ss))
      ≡ r.src
        ∷ (port_words r.src_port ++ (codes "to" ∷ r.dst ∷ (port_words r.dst_port ++ tail_words ss)))
words-hosts_and_ports r ss h b =
    rw (append_assoc (port_pieces r.src_port) (codes " to " ∷ r.dst ∷ port_pieces r.dst_port) ss) (
      words-ports r.src r.src_port (codes " to " ∷ r.dst ∷ (port_pieces r.dst_port ++ ss))
        h.src_word h.src_port_word refl
      ∙ rw (words-to r.dst r.dst_port ss h.dst_word h.dst_port_word b) refl)

words-hosts :
    (r : Ruleset) (ss : List Text)
    → IsSpoken r
    → IsBreak (join ss)
    → words (r.src ++ (codes " to " ++ (r.dst ++ join ss)))
      ≡ r.src ∷ codes "to" ∷ r.dst ∷ tail_words ss
words-hosts r ss h b =
    words-IsWord r.src (codes " to " ++ (r.dst ++ join ss)) h.src_word refl
    ∙ ap (◌∷◌ r.src) (words-to r.dst [] ss h.dst_word (inl refl) b)

-- What stands behind "from ", by protocol.
abbrev pub after_from : Proto → Ruleset → List Text
after_from p r =
    r.src
    ∷ (ports_of p r.src_port
        ++ (codes "to"
            ∷ r.dst
            ∷ (ports_of p r.dst_port ++ (flow_words r.ifs ++ option_words (codes "5") p r.option))))

words-flow_udp :
    (f : Flow)
    → (tail_words (flow_pieces f (codes " in ") (codes " out ")) ≡ flow_words f ++ [])
      × IsBreak (join (flow_pieces f (codes " in ") (codes " out ")))
unfolding words
words-flow_udp any = (refl, tt)
words-flow_udp incoming = (refl, refl)
words-flow_udp outgoing = (refl, refl)

tail_pieces-words :
    (p : Proto) (r : Ruleset)
    → IsSpoken r
    → (p ≡ ip → r.other_a ≡ [])
    → (t : Text) × (join (tail_pieces p r) ≡ codes "from " ++ t) × (words t ≡ after_from p r)
unfolding tail_pieces
tail_pieces-words ip r h n =
    let o = words-ip_option r.option in
    let f = words-flow r.ifs (ip_option r.option ++ []) o.1 in
    let ss = flow_pieces r.ifs (codes " in") (codes " out") ++ (ip_option r.option ++ []) in
    (
      r.src ++ (codes " to " ++ (r.dst ++ join ss)),
      rw (n refl) refl,
      words-hosts r ss h f.1 ∙ rw (f.0, o.0) refl,
    )
tail_pieces-words tcp r h n =
    let o = words-tcp_option r.option in
    let f = words-flow r.ifs (tcp_option r.option) o.1 in
    (_, refl, words-hosts_and_ports r _ h f.1 ∙ rw (f.0, o.0) refl)
tail_pieces-words udp r h n =
    let f = words-flow_udp r.ifs in (_, refl, words-hosts_and_ports r _ h f.1 ∙ rw f.0 refl)
tail_pieces-words icmp r h n =
    let o = words-icmp_option r.option in
    let f = words-flow r.ifs (icmp_option r.option) o.1 in
    (
      _,
      refl,
      words-hosts r (flow_pieces r.ifs (codes " in") (codes " out") ++ icmp_option r.option) h f.1
          ∙ rw (f.0, o.0) refl,
    )

pub words-assembled :
    (r : Ruleset) {o : Text}
    → opening r.proto r.action ≡ ok o
    → IsSpoken r
    → words (assembled o r) ≡ argv (codes "5") r
words-assembled r {o} e h =
    let (t, j, w) = tail_pieces-words r.proto r h h.no_other in
    rw j (words-opening r.proto r.action t e ∙ rw w refl)

-- A rule that has a command, and whose texts are words of letters, digits and !%+,-./:@_ of at
-- most 192 bytes together (and that, if it is an IP rule, has no text behind its options), gets a
-- command that sh splits into the argument list of ipfw's grammar for the rule, where Echo
-- Request has the type 5 in place of the 8 of ipfw's manual.
pub command-argv :
    (r : Ruleset) {o : Text}
    → opening r.proto r.action ≡ ok o
    → text_size r.proto r ≤ 192
    → IsSpoken r
    → (cmd : Text) × (command r ≡ ok cmd) × (words cmd ≡ argv (codes "5") r)
command-argv r {o} e n h = (assembled o r, (command-fits r e n).0, words-assembled r e h)
