-- ===== src/Rules/Command/Forward.antt =====
-- The command of a FWD rule as the argument list that sh hands to ipfw.
use closed_bsd.Base.{
  ℕ, ◌≤◌, ◌≡◌, refl, sym, ap, ◌∙◌, ◌≢◌, ◌↔◌, ◌⊎◌, inl, inr, Bool, true, false, List, [], ◌∷◌, ◌++◌,
  append-nil, length-append, append_assoc, arith, if◌then◌else◌, length, Bool-cases,
}
use closed_bsd.Fault.{ok}
use closed_bsd.Rules.Command.FwdBounds.{fwd_size, fwd_command-fits}
use closed_bsd.Rules.Command.{fwd_command, fwd_pieces, fwd_head, fwd_name, fwd_port_pieces}
use closed_bsd.Rules.Ruleset.{Proto, tcp, udp, Ruleset}
use closed_bsd.Text.Cat.{join, join-append}
use closed_bsd.Text.Words.{
  words, is_plain, IsWord, words-IsWord, words_blank, IsWord-cons, IsWord-append,
}
use closed_bsd.Text.{Text, codes, contains, starts_with}

-- The words that the source port and the "to" behind it make together with the source address.
abbrev pub from_words : Text → Text → List Text
from_words src [] = (src ++ codes "to") ∷ []
from_words src (c ∷ p) =
    if starts_with (codes "any") (c ∷ p)
    then src ∷ codes "to" ∷ []
    else src ∷ ((c ∷ p) ++ codes "to") ∷ []

abbrev pub to_words : Text → Text → List Text
to_words dst [] = dst ∷ []
to_words dst (c ∷ p) = if starts_with (codes "any") (c ∷ p) then dst ∷ [] else dst ∷ (c ∷ p) ∷ []

abbrev pub proto_word : Proto → Text
proto_word tcp = codes "tcp"
proto_word udp = codes "udp"
proto_word _ = []

abbrev pub fwd_argv : Ruleset → List Text
fwd_argv r =
    codes "/sbin/ipfw"
    ∷ codes "-q"
    ∷ codes "add"
    ∷ codes "fwd"
    ∷ (r.other_a ++ (codes "," ++ r.other_b))
    ∷ proto_word r.proto
    ∷ codes "from"
    ∷ (from_words r.src r.src_port ++ to_words r.dst r.dst_port)

abbrev pub fwd_text : Ruleset → Text
fwd_text r = fwd_head r (fwd_name r.proto) ++ join (fwd_pieces r)

-- The texts of a forward hold no blank and nothing that means something to sh, and its addresses are
-- not empty.
pub record IsSpokenFwd (r : Ruleset) : Type 0 where
  pub src_word : IsWord r.src
  pub dst_word : IsWord r.dst
  pub src_port_no_blank : contains b' ' r.src_port ≡ false
  pub dst_port_no_blank : contains b' ' r.dst_port ≡ false
  pub other_a_no_blank : contains b' ' r.other_a ≡ false
  pub other_b_no_blank : contains b' ' r.other_b ≡ false
  pub plain :
      is_plain (r.src ++ (r.src_port ++ (r.dst ++ (r.dst_port ++ (r.other_a ++ r.other_b))))) ≡ true

abbrev is_any : Text → Bool
is_any = starts_with (codes "any")

fwd_port_pieces-any :
    (c : ℕ) (p : Text) → is_any (c ∷ p) ≡ true → fwd_port_pieces (c ∷ p) ≡ codes " " ∷ []
fwd_port_pieces-any c p e = ground arith

fwd_port_pieces-port :
    (c : ℕ) (p : Text) → is_any (c ∷ p) ≡ false → fwd_port_pieces (c ∷ p) ≡ codes " " ∷ (c ∷ p) ∷ []
fwd_port_pieces-port c p e = ground arith

words-to_words :
    (dst p : Text)
    → IsWord dst
    → contains b' ' p ≡ false
    → words (dst ++ join (fwd_port_pieces p)) ≡ to_words dst p
words-to_words dst [] h k = words-IsWord dst [] h tt ∙ (unfold words in refl)
words-to_words dst (c ∷ p) h k = elim (Bool-cases (is_any (c ∷ p))) [
  | inl e ↦
      rw (fwd_port_pieces-any c p e, e)
        (words-IsWord dst (codes " ") h refl ∙ (unfold words in refl))
  | inr e ↦
      rw (fwd_port_pieces-port c p e, e)
        (words-IsWord dst (b' ' ∷ ((c ∷ p) ++ [])) h refl
          ∙ ap (◌∷◌ dst) (
              words_blank ((c ∷ p) ++ [])
              ∙ words-IsWord (c ∷ p) [] (IsWord-cons c p k) tt
              ∙ (unfold words in refl)))
]

words-from_words :
    (src p t : Text)
    → IsWord src
    → contains b' ' p ≡ false
    → words (src ++ (join (fwd_port_pieces p) ++ (codes "to " ++ t))) ≡ from_words src p ++ words t
words-from_words src [] t h k = rw (← append_assoc src (codes "to") (b' ' ∷ t)) (
    words-IsWord (src ++ codes "to") (b' ' ∷ t)
      (IsWord-append src b't' (codes "o") h.no_blank (unfold contains in refl)) refl
    ∙ ap (◌∷◌ (src ++ codes "to")) (words_blank t))
words-from_words src (c ∷ p) t h k = elim (Bool-cases (is_any (c ∷ p))) [
  | inl e ↦
      rw (fwd_port_pieces-any c p e, e)
        (words-IsWord src (codes " to " ++ t) h refl ∙ (unfold words in refl))
  | inr e ↦
      rw (fwd_port_pieces-port c p e, e)
        (words-IsWord src (b' ' ∷ (((c ∷ p) ++ []) ++ (codes "to " ++ t))) h refl
          ∙ ap (◌∷◌ src) (words_blank (((c ∷ p) ++ []) ++ (codes "to " ++ t)) ∙ port))
]
  where
    port : words (((c ∷ p) ++ []) ++ (codes "to " ++ t)) ≡ ((c ∷ p) ++ codes "to") ∷ words t
    port =
        rw (append-nil p, ← append_assoc p (codes "to") (b' ' ∷ t))
          (words-IsWord ((c ∷ p) ++ codes "to") (b' ' ∷ t)
              (IsWord-append (c ∷ p) b't' (codes "o") k (unfold contains in refl)) refl
            ∙ ap (◌∷◌ ((c ∷ p) ++ codes "to")) (words_blank t))

words-target :
    (a b name t : Text)
    → contains b' ' a ≡ false
    → contains b' ' b ≡ false
    → words ((a ++ (b',' ∷ (b ++ (b' ' ∷ name)))) ++ t) ≡ (a ++ (b',' ∷ b)) ∷ words (name ++ t)
words-target a b name t h k =
    ap words shape
    ∙ words-IsWord (a ++ (b',' ∷ b)) (b' ' ∷ (name ++ t))
        (IsWord-append a b',' b h (unfold contains in k)) refl
    ∙ ap (◌∷◌ (a ++ (b',' ∷ b))) (words_blank (name ++ t))
  where
    shape : (a ++ (b',' ∷ (b ++ (b' ' ∷ name)))) ++ t ≡ (a ++ (b',' ∷ b)) ++ (b' ' ∷ (name ++ t))
    shape = simp append_assoc

words-fwd_pieces :
    (r : Ruleset)
    → IsSpokenFwd r
    → words (join (fwd_pieces r))
      ≡ codes "from" ∷ (from_words r.src r.src_port ++ to_words r.dst r.dst_port)
unfolding fwd_pieces words
words-fwd_pieces r h = ap (◌∷◌ (codes "from")) (
    rw (join-append (fwd_port_pieces r.src_port) (codes "to " ∷ r.dst ∷ fwd_port_pieces r.dst_port))
      (words-from_words r.src r.src_port (r.dst ++ join (fwd_port_pieces r.dst_port)) h.src_word
          h.src_port_no_blank
        ∙ ap (λ ws. from_words r.src r.src_port ++ ws)
            (words-to_words r.dst r.dst_port h.dst_word h.dst_port_no_blank)))

words-fwd_head :
    (p : Proto) (r : Ruleset) (t : Text)
    → (p ≡ tcp) ⊎ (p ≡ udp)
    → IsSpokenFwd r
    → words (fwd_head r (fwd_name p) ++ t)
      ≡ codes "/sbin/ipfw"
        ∷ codes "-q"
        ∷ codes "add"
        ∷ codes "fwd"
        ∷ (r.other_a ++ (codes "," ++ r.other_b))
        ∷ proto_word p
        ∷ words t
unfolding words
words-fwd_head tcp r t p h =
    ap (λ ws. codes "/sbin/ipfw" ∷ codes "-q" ∷ codes "add" ∷ codes "fwd" ∷ ws)
      (words-target r.other_a r.other_b (codes "tcp ") t h.other_a_no_blank h.other_b_no_blank)
words-fwd_head udp r t p h =
    ap (λ ws. codes "/sbin/ipfw" ∷ codes "-q" ∷ codes "add" ∷ codes "fwd" ∷ ws)
      (words-target r.other_a r.other_b (codes "udp ") t h.other_a_no_blank h.other_b_no_blank)
words-fwd_head _ r t p h = elim p [ inl e ↦ cc | inr e ↦ cc ]

words-fwd_text :
    (r : Ruleset)
    → (r.proto ≡ tcp) ⊎ (r.proto ≡ udp)
    → IsSpokenFwd r
    → words (fwd_text r) ≡ fwd_argv r
words-fwd_text r p h =
    words-fwd_head r.proto r (join (fwd_pieces r)) p h ∙ rw (words-fwd_pieces r h) refl

-- A forward of TCP or UDP, whose texts hold no blank, are of letters, digits and !%+,-./:@_ and
-- take at most 192 bytes together, with addresses that are not empty, gets a command that sh
-- splits into the words of `fwd_argv`: "to" is a part of the source address where there is no
-- source port, a part of the port where there is one, and a word of its own only where the port
-- begins with "any"; a port that begins with "any" is left out.
pub fwd_command-argv :
    (r : Ruleset)
    → (r.proto ≡ tcp) ⊎ (r.proto ≡ udp)
    → fwd_size r ≤ 192
    → IsSpokenFwd r
    → (cmd : Text) × (fwd_command r ≡ ok cmd) × (words cmd ≡ fwd_argv r)
fwd_command-argv r p n h = (fwd_text r, (fwd_command-fits r p n).0, words-fwd_text r p h)

-- The argument list that ipfw's grammar wants: "from HOST [PORT] to HOST [PORT]".
abbrev host_words : Text → Text → List Text
host_words host [] = host ∷ []
host_words host (c ∷ p) = if is_any (c ∷ p) then host ∷ [] else host ∷ (c ∷ p) ∷ []

abbrev pub grammar_argv : Ruleset → List Text
grammar_argv r =
    codes "/sbin/ipfw"
    ∷ codes "-q"
    ∷ codes "add"
    ∷ codes "fwd"
    ∷ (r.other_a ++ (codes "," ++ r.other_b))
    ∷ proto_word r.proto
    ∷ codes "from"
    ∷ (host_words r.src r.src_port ++ (codes "to" ∷ to_words r.dst r.dst_port))

abbrev behind : List Text → List Text
behind (_ ∷ _ ∷ _ ∷ _ ∷ _ ∷ _ ∷ _ ∷ ws) = ws
behind ws = ws

append-to-ne : (s : Text) → (s ++ codes "to") ≢ s
append-to-ne s e =
    absurd (omega (arith, length-append s (codes "to"), ap (λ (t : Text). length t) e))

from_words-grammar :
    (src p : Text) (ws : List Text)
    → (from_words src p ++ ws ≡ host_words src p ++ (codes "to" ∷ ws)) ↔ (is_any p ≡ true)
unfolding starts_with
from_words-grammar src [] ws = ((λ e. absurd (append-to-ne src (cc))), (λ e. cc))
from_words-grammar src (c ∷ p) ws = elim (Bool-cases (is_any (c ∷ p))) [
  | inl a ↦ ((λ e. a), (λ e. rw a refl))
  | inr a ↦ ((λ e. absurd (append-to-ne (c ∷ p) (let e' = rw a at e in cc))), (λ e. cc))
]

-- The command of a forward is the one that ipfw's grammar wants exactly if the user typed a source
-- port that begins with "any"; else "to" is glued to the word in front of it.
pub fwd_text-grammar :
    (r : Ruleset)
    → (r.proto ≡ tcp) ⊎ (r.proto ≡ udp)
    → IsSpokenFwd r
    → (words (fwd_text r) ≡ grammar_argv r) ↔ (starts_with (codes "any") r.src_port ≡ true)
fwd_text-grammar r p h =
    let ws = to_words r.dst r.dst_port in
    (
      (λ e.
          (from_words-grammar r.src r.src_port ws).0 (ap behind (sym (words-fwd_text r p h) ∙ e))),
      (λ a. words-fwd_text r p h ∙ rw ((from_words-grammar r.src r.src_port ws).1 a) refl),
    )
