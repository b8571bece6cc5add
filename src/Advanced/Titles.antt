-- ===== src/Advanced/Titles.antt =====
-- The script as the list of what stands behind "/sbin/ipfw -q" in its lines.
use closed_bsd.Base.{
  ℕ, zero, suc, ◌≤◌, ◌≡◌, refl, sym, ap, ◌∙◌, false, List, [], ◌∷◌, ◌++◌, map, append-nil,
  append_assoc, arith, length, erase_idx, All,
}
use closed_bsd.Rules.Menu.Entries.{rule_line, script, IsTitle}
use closed_bsd.Text.Token.{token}
use closed_bsd.Text.{Text, contains}

pub script-append : (ts : List Text) (t : Text) → script ts ++ rule_line t ≡ script (ts ++ t ∷ [])
script-append [] t = sym (append-nil (rule_line t))
script-append (u ∷ ts) t =
    append_assoc (rule_line u) (script ts) (rule_line t)
    ∙ ap (λ (s : Text). rule_line u ++ s) (script-append ts t)

token-no_newline : (t : Text) → contains b'\n' t ≡ false → contains b'\n' (token b'q' t) ≡ false
unfolding contains token
token-no_newline [] h = refl
token-no_newline (c ∷ cs) h = ground (arith, token-no_newline cs)

length-token : (t : Text) → length (token b'q' t) ≤ length t
unfolding token
length-token [] = omega arith
length-token (c ∷ cs) = ground (arith, length-token cs)

-- A title stays one when the menu cuts it at its first q.
pub token-IsTitle : (t : Text) → IsTitle t → IsTitle (token b'q' t)
token-IsTitle t h = record {
  first = h.first;
  others = token b'q' h.others;
  splits = rw h.splits (unfold token in rw h.first_not_q refl);
  first_not_q = h.first_not_q;
  no_newline = token-no_newline t h.no_newline;
  short = omega (arith, h.short, length-token t);
}

map-IsTitle : (ts : List Text) → All IsTitle ts → All IsTitle (map (token b'q') ts)
map-IsTitle [] h = tt
map-IsTitle (t ∷ ts) h = (token-IsTitle t h.0, map-IsTitle ts h.1)

pub map-erase_idx-IsTitle :
    (k : ℕ) (ts : List Text) → All IsTitle ts → All IsTitle (map (token b'q') (erase_idx ts k))
map-erase_idx-IsTitle k [] h = tt
map-erase_idx-IsTitle zero (t ∷ ts) h = map-IsTitle ts h.1
map-erase_idx-IsTitle (suc k) (t ∷ ts) h = (token-IsTitle t h.0, map-erase_idx-IsTitle k ts h.1)
