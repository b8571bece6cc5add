-- ===== src/Rules/Command/FwdBounds.antt =====
-- The commands of forwards and their sizes against `char cmd[256]` (`__insert_rule`, the branch FWD).
use closed_bsd.Base.{
  ℕ, ◌+◌, ◌≤◌, ◌<◌, ◌≡◌, ap, ◌⊎◌, inl, inr, take-eq_of_le, ◌∷◌, ◌++◌, arith, length, length-append,
}
use closed_bsd.Fault.{ok}
use closed_bsd.Rules.Command.{
  fwd_opening, fwd_pieces, fwd_command, cmd_size, fwd_port_pieces, fwd_head, fwd_name,
}
use closed_bsd.Rules.Ruleset.{Proto, tcp, udp, Ruleset}
use closed_bsd.Text.Cat.{join, sizes, length-join, sizes-append, strcat_all-eq-ok}
use closed_bsd.Text.{Text, codes, snprintf}
use closed_bsd.Rules.Command.Bounds.{host_size}

length-fwd_head :
    (r : Ruleset) (name : Text)
    → length (fwd_head r name) ≡ 23 + length r.other_a + length r.other_b + length name
length-fwd_head r name = omega (
  arith,
  length-append r.other_a (codes "," ++ (r.other_b ++ name)),
  length-append r.other_b name,
)

sizes-fwd_port_pieces : (p : Text) → sizes (fwd_port_pieces p) ≤ 1 + length p
sizes-fwd_port_pieces p = ground arith

abbrev pub fwd_size : Ruleset → ℕ
fwd_size r = host_size r + length r.other_a + length r.other_b

sizes-fwd_pieces :
    (r : Ruleset)
    → sizes (fwd_pieces r)
      ≤ 10 + length r.src + length r.dst + length r.src_port + length r.dst_port
unfolding fwd_pieces
sizes-fwd_pieces r = omega (
  arith,
  sizes-append (fwd_port_pieces r.src_port) (codes "to " ∷ r.dst ∷ fwd_port_pieces r.dst_port),
  sizes-fwd_port_pieces r.src_port,
  sizes-fwd_port_pieces r.dst_port,
)

length-fwd_name : (p : Proto) → length (fwd_name p) ≤ 5
length-fwd_name tcp = omega arith
length-fwd_name _ = omega arith

fwd_head-whole :
    (r : Ruleset) (name : Text)
    → length name ≤ 5
    → length r.other_a + length r.other_b ≤ 192
    → snprintf cmd_size (fwd_head r name) ≡ fwd_head r name
fwd_head-whole r name n h =
    take-eq_of_le 255 (fwd_head r name) (omega (arith, length-fwd_head r name))

fwd_opening-whole :
    (p : Proto) (r : Ruleset)
    → (p ≡ tcp) ⊎ (p ≡ udp)
    → length r.other_a + length r.other_b ≤ 192
    → fwd_opening p r ≡ ok (fwd_head r (fwd_name p))
unfolding fwd_opening
fwd_opening-whole tcp r p h = ap ok (fwd_head-whole r (codes " tcp ") (omega arith) h)
fwd_opening-whole udp r p h = ap ok (fwd_head-whole r (codes " udp ") (omega arith) h)
fwd_opening-whole _ r p h = elim p [ inl e ↦ cc | inr e ↦ cc ]

-- A forward of TCP or UDP whose texts take at most 192 bytes is assembled whole.
pub fwd_command-fits :
    (r : Ruleset)
    → (r.proto ≡ tcp) ⊎ (r.proto ≡ udp)
    → fwd_size r ≤ 192
    → (fwd_command r ≡ ok (fwd_head r (fwd_name r.proto) ++ join (fwd_pieces r)))
      × (length (fwd_head r (fwd_name r.proto) ++ join (fwd_pieces r)) < cmd_size)
unfolding fwd_command
fwd_command-fits r p h =
    let fits : length (fwd_head r (fwd_name r.proto)) + length (join (fwd_pieces r)) < cmd_size =
      omega (
        arith,
        length-fwd_head r (fwd_name r.proto),
        length-fwd_name r.proto,
        sizes-fwd_pieces r,
        length-join (fwd_pieces r),
      ) in
    (
      rw (fwd_opening-whole r.proto r p (omega arith))
          (strcat_all-eq-ok cmd_size (fwd_head r (fwd_name r.proto)) (fwd_pieces r) fits),
      omega (arith, fits, length-append (fwd_head r (fwd_name r.proto)) (join (fwd_pieces r))),
    )
