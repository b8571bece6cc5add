-- ===== src/Rules/Examples.antt =====
-- Concrete runs of the rules' code (closedbsd/config/rules.c).
use closed_bsd.Base.{
  ◌≡◌, ◌<◌, refl, inl, inr, true, false, List, [], ◌∷◌, some, arith, erase_idx, length, replicate,
}
use closed_bsd.Fault.{ok, fault, overflow}
use closed_bsd.Rules.Command.Bounds.{assembled, command-fits, command-overflow}
use closed_bsd.Rules.Command.Forward.{IsSpokenFwd, fwd_argv, fwd_command-argv}
use closed_bsd.Rules.Command.Grammar.{IsSpoken}
use closed_bsd.Rules.Command.Words.{command-argv}
use closed_bsd.Rules.Command.{command, fwd_command, opening, cmd_size}
use closed_bsd.Rules.Menu.Delete.{delete_rule-Deleted, Deleted}
use closed_bsd.Rules.Menu.Entries.{IsTitle, script}
use closed_bsd.Rules.Menu.{delete_rule, dropped}
use closed_bsd.Rules.Raw.Copy.{raw_drop_rule-Replaced, Replaced}
use closed_bsd.Rules.Raw.{raw_drop_rule}
use closed_bsd.Rules.Raw
use closed_bsd.Rules.Ruleset.{Ruleset, zeroed, allow, fwd, tcp, incoming, setup}
use closed_bsd.Rules.Script.Appends.{Appended, insert_rule-Appended}
use closed_bsd.Rules.Script.{success, insert_rule}
use closed_bsd.Text.Cat.{join}
use closed_bsd.Text.Lines.{fgets_all}
use closed_bsd.Text.Token.{token}
use closed_bsd.Text.Words.{words}
use closed_bsd.Text.{Text, codes, contains}
use closed_bsd.World.{World}

-- A web server's rule.
abbrev web : Ruleset
web = record zeroed {
  action = allow;
  proto = tcp;
  ifs = incoming;
  option = setup;
  src = codes "any";
  dst = codes "10.0.0.1";
  dst_port = codes "80";
}

-- A forward of port 80.
abbrev forward : Ruleset
forward = record zeroed {
  action = fwd;
  proto = tcp;
  src = codes "any";
  dst = codes "10.0.0.1";
  dst_port = codes "80";
  other_a = codes "10.0.0.2";
  other_b = codes "8080";
}

-- Two addresses that fill their arrays.
abbrev long : Ruleset
long = record web { src = replicate 127 b'a'; dst = replicate 127 b'b' }

abbrev titles : List Text
titles = codes " add allow ip from any to any" ∷ codes " add deny tcp from squid to any" ∷ []

abbrev world : World
world = record { content = λ _. some (script titles); opens = λ _. true; ran = [] }

abbrev closed : World
closed = record world { opens = λ _. false }

first-IsTitle : IsTitle (codes " add allow ip from any to any")
unfolding contains
first-IsTitle = record {
  first = b' ';
  others = codes "add allow ip from any to any";
  splits = refl;
  first_not_q = refl;
  no_newline = refl;
  short = omega arith;
}

second-IsTitle : IsTitle (codes " add deny tcp from squid to any")
unfolding contains
second-IsTitle = record {
  first = b' ';
  others = codes "add deny tcp from squid to any";
  splits = refl;
  first_not_q = refl;
  no_newline = refl;
  short = omega arith;
}

-- Deleting the first line cuts the second at the q of "squid".
delete_rule-Deleted_example :
    (w' : World) × (delete_rule (some 0) [] world ≡ ok (w', dropped))
    × Deleted (script (codes " add deny tcp from s" ∷ [])) world w'
unfolding token
delete_rule-Deleted_example =
    delete_rule-Deleted 0 titles [] world refl refl (first-IsTitle, (second-IsTitle, tt))
      (omega arith) (omega arith) tt

raw_drop_rule-Replaced_example :
    (w' : World) × (raw_drop_rule 2 world ≡ ok (w', Raw.success))
    × Replaced (join (erase_idx (fgets_all (script titles)) 1)) world w'
raw_drop_rule-Replaced_example = raw_drop_rule-Replaced 1 (script titles) world refl refl refl

web_opening : opening web.proto web.action ≡ ok (codes "/sbin/ipfw -q add allow tcp ")
unfolding opening
web_opening = refl

web_words : IsSpoken web
unfolding contains
web_words = record {
  src_word = record { no_blank = refl; some_byte = λ e. cc };
  dst_word = record { no_blank = refl; some_byte = λ e. cc };
  src_port_word = inl refl;
  dst_port_word = inr (record { no_blank = refl; some_byte = λ e. cc });
  plain = refl;
  no_other = λ e. cc;
}

command-argv_example :
    (cmd : Text) × (command web ≡ ok cmd)
    × (words cmd
        ≡ codes "/sbin/ipfw"
          ∷ codes "-q"
          ∷ codes "add"
          ∷ codes "allow"
          ∷ codes "tcp"
          ∷ codes "from"
          ∷ codes "any"
          ∷ codes "to"
          ∷ codes "10.0.0.1"
          ∷ codes "80"
          ∷ codes "in"
          ∷ codes "setup"
          ∷ [])
command-argv_example = command-argv web web_opening (omega arith) web_words

command-fits_example :
    (command web ≡ ok (assembled (codes "/sbin/ipfw -q add allow tcp ") web))
    × (length (assembled (codes "/sbin/ipfw -q add allow tcp ") web) < cmd_size)
command-fits_example = command-fits web web_opening (omega arith)

long_opening : opening long.proto long.action ≡ ok (codes "/sbin/ipfw -q add allow tcp ")
unfolding opening
long_opening = refl

command-overflow_example : command long ≡ fault overflow
command-overflow_example = command-overflow long long_opening (omega arith)

forward_words : IsSpokenFwd forward
unfolding contains
forward_words = record {
  src_word = record { no_blank = refl; some_byte = λ e. cc };
  dst_word = record { no_blank = refl; some_byte = λ e. cc };
  src_port_no_blank = refl;
  dst_port_no_blank = refl;
  other_a_no_blank = refl;
  other_b_no_blank = refl;
  plain = refl;
}

-- "to" is glued to the source address.
fwd_command-argv_example :
    (cmd : Text) × (fwd_command forward ≡ ok cmd) × (words cmd ≡ fwd_argv forward)
fwd_command-argv_example = fwd_command-argv forward (inl refl) (omega arith) forward_words

insert_rule-Appended_example :
    (w' : World) × (insert_rule web world ≡ ok (w', success))
    × Appended (assembled (codes "/sbin/ipfw -q add allow tcp ") web) world w'
insert_rule-Appended_example = insert_rule-Appended web world web_opening (omega arith) refl
