-- ===== src/Loaded/Runs.antt =====
-- Runs of ipfw's parsers on concrete words.
use closed_bsd.Base.{◌≡◌, refl, true, [], ◌∷◌, some}
use closed_bsd.Ipfw.Address.{by_width, fill_host, fill_ip, lookup_host}
use closed_bsd.Ipfw.Dispatch.{
  ipfw_main, each_rule, zero_counters, delete_rules, read_flags, letters, one_letter, dispatch,
  numbers, stops_with, sweep,
}
use closed_bsd.Ipfw.Exits.{done, errx, ex_dataerr, ex_usage, undefined}
use closed_bsd.Ipfw.Fields.{pieces, up_to_empty, negated, row_of}
use closed_bsd.Ipfw.Flags.{
  fill_tcpflag, fill_bits, fill_ipopt, fill_ip_fields, ip_bits, fill_icmptypes, icmp_loop,
  past_comma, ends_number,
}
use closed_bsd.Ipfw.Numbers.{
  atoi, to_int, bit_and, strtoul, sign, skip_spaces, any_base, magnitude, digits, digit_in,
  is_digit, to_ulong, starts_with_digit,
}
use closed_bsd.Ipfw.Iface.{same_text}
use closed_bsd.Ipfw.Rule.{syn, ack}
use closed_bsd.Loaded.Lab.{lab, known_host}
use closed_bsd.Text.Token.{token, saved}
use closed_bsd.Text.{codes, starts_with}

-- The address of a network loses the bits behind its width.
network : fill_ip lab (codes "10.0.0.1/24") ≡ done (167772160, 4294967040)
unfolding fill_ip fill_host by_width lookup_host known_host same_text starts_with token saved atoi
    to_int sign skip_spaces magnitude digits digit_in is_digit bit_and
network = refl

negative_width : by_width (codes "-1") ≡ undefined
unfolding by_width atoi to_int sign skip_spaces magnitude digits digit_in is_digit
negative_width = refl

flags : fill_tcpflag ([], []) (codes "syn,!ack") ≡ done (syn ∷ [], ack ∷ [])
unfolding fill_tcpflag fill_bits pieces up_to_empty negated row_of starts_with
flags = refl

no_flag : fill_tcpflag ([], []) (codes "syn,foo") ≡ errx ex_dataerr
unfolding fill_tcpflag fill_bits pieces up_to_empty negated row_of starts_with
no_flag = refl

-- An IP option that there is not is taken, and sets nothing.
unknown_option : fill_ipopt ([], []) (codes "foo") ≡ ([], [])
unfolding fill_ipopt fill_ip_fields ip_bits pieces up_to_empty negated starts_with
unknown_option = refl

types : fill_icmptypes lab [] (codes "8,0") ≡ done (8 ∷ 0 ∷ [])
unfolding fill_icmptypes icmp_loop past_comma ends_number strtoul sign skip_spaces any_base
    magnitude digits digit_in is_digit to_ulong
types = refl

-- The rules in front of the word that is no number are zeroed.
zeroed_before :
    ipfw_main lab true (codes "ipfw" ∷ codes "zero" ∷ codes "100" ∷ codes "foo" ∷ [])
    ≡ done (zero_counters (each_rule (100 ∷ []) (some ex_usage)))
unfolding ipfw_main read_flags letters one_letter dispatch starts_with starts_with_digit is_digit
    numbers stops_with sweep atoi to_int sign skip_spaces magnitude digits digit_in
zeroed_before = refl

nothing_deleted :
    ipfw_main lab true (codes "ipfw" ∷ codes "delete" ∷ codes "foo" ∷ []) ≡ done (delete_rules [])
unfolding ipfw_main read_flags letters one_letter dispatch starts_with starts_with_digit is_digit
    numbers
nothing_deleted = refl
