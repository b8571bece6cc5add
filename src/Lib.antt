-- ===== src/Lib.antt =====
-- The ClosedBSD configuration shell.
--
-- ClosedBSD is a firewall on a FreeBSD 4 system. Its administrator works with closedbsd/config, a
-- program of libdialog menus and curses forms. The program keeps packet filter rules as one ipfw
-- command to a line in /etc/rules and runs them as they are entered; it keeps network devices in
-- the Berkeley DB file /etc/devices.db.
--
-- The parts:
--
-- * Base, Fault and Text are shared. Base passes on the libraries' names and adds tests and list
--   functions on the native numbers. Fault has results, with what ends a C program in an undefined
--   way (a write past a buffer, a read of a variable that is not set, a null pointer handed to
--   libc) as values. Text has texts as lists of bytes and the libc functions on them that the shell
--   calls: strcat into a buffer of a given size (Text/Cat), fgets (Text/Lines), strtok
--   (Text/Token), the menu's two digit prompts and atoi (Text/Prompt), and the words that sh makes of
--   a command of plain bytes (Text/Words): quotes, `;`, `$` and the like are not modelled, and the
--   texts of a rule whose command is split have none.
-- * World is what the rules' code acts on: files by name, whether they can be opened, and the
--   commands handed to system(3).
-- * Rules is closedbsd/config/rules.c and fw.h. Rules/Ruleset is `struct ruleset`; Rules/Command
--   assembles the command of a rule; Rules/Script is `__insert_rule` and `raw_add_rule`; Rules/Menu
--   is `delete_rule` and `drop_rule`; Rules/Raw is `raw_drop_rule`; Rules/RuleDb is `insert_rule` and
--   `next_rule`, the records of a DB file that no menu uses.
-- * Btree is the interface to the Berkeley DB calls, and Devices is closedbsd/config/db.c and the
--   DHCP branch of `dev_config` in devices.c over that interface.
-- * Keyboard has the keys and edited lines that the forms read (Keyboard/Typed: the lines of a user
--   who goes from field to field).
-- * Filter is closedbsd/config/filter.c with `inputs` of misc.c: the form in which the user enters a
--   rule. Filter/Form has its variables, Filter/Down, Filter/Keys and Filter/Loop what each key
--   does. The user's keys and edited lines are lists that the model consumes. When return is
--   pressed at OK the form calls `__insert_rule` of Rules.
-- * PortForward is closedbsd/config/forward.c with `forw_input` of misc.c, the form for a forward, in
--   the same way: Down, Loop, and what holds of them in Sound, Commit and Session.
-- * Boxes is the boxes of these forms, `draw_options`, `draw_iface`, `draw_action_box`,
--   `draw_protocol_box` and `draw_protocol_forward_box` of misc.c: Boxes/Udp to Boxes/ForwardBox have
--   the literal lines by the row that is lit, Boxes/Draw the functions, Boxes/Marks and Boxes/Options
--   one description of all boxes, and Boxes/Screen the screen of the form of Filter.
-- * Boot is what the boot program does with the shell's files: closedbsd/init/rules.c runs the commands
--   of /etc/rules and starts natd from /etc/nat, and init/devices.c (Boot/Interfaces) configures the
--   devices of the database. `boot` is the two calls of init.c's main; before them do_rc mounts an
--   empty /etc, copies the defaults to it and may bring back a saved one. A later start is
--   therefore a machine of which only both scripts are known, as they were left (Boot/Later).
-- * Nat is closedbsd/config/nat.c: the script /etc/nat, and the reload of the packet filter.
-- * Advanced and Firewall are closedbsd/config/fwmenu.c. Advanced has the menus from which the user
--   enters the forms, types, deletes and flushes rules, as a list of choices. Advanced/Editor is the
--   abstract view of them, an editor of a list of commands, to which Advanced/Refines relates them,
--   and Advanced/Booted joins them to Boot. Firewall has `main_fw_menu` with the basic firewall, which
--   calls `enable_nat` of Nat, `__insert_rule` of Rules and `dev_ext` of Devices.
-- * IfsCfg is closedbsd/config/ifcon.c, the form for a static address, and IfsCfg/Store what it stores in
--   the database of Devices. Whether the users of a database may rely on its writes is the record
--   IsReliable of Devices/Reliable.
-- * Setup is `dev_list` and `dev_config` of closedbsd/config/devices.c, from which a device is set to DHCP
--   (Devices) or given a static address (IfsCfg). The file that /sbin/ifs.sh writes is a parameter.
-- * Login is the login of closedbsd/init/init.c, Passwd is closedbsd/passwd/passwd.c, Summary is
--   closedbsd/config/sum.c over Rules and Devices, and Saving is the entry "Save" of
--   closedbsd/config/menu.c.
-- * Ipfw is sbin/ipfw/ipfw.c, the command that the rules are handed to, from the flags of `ipfw_main`
--   (Ipfw/Dispatch) to the rule that `add` gives the kernel (Ipfw/Add): Action, Head and Options are
--   the parts of `add` in their order, and Address, Ports, Flags and Iface the functions that it calls.
--   Each part takes what is left of the argument list and returns the rule so far with the rest, or
--   the code that errx ends the program with (Ipfw/Exits). The databases of hosts, protocols,
--   services, users and groups, floating point and the limits of <netinet/ip_fw.h> are the record
--   Libc. Numbers are those of a machine with 32 bits.
--   Ipfw/Sane says what the kernel may take for granted of a rule.
-- * Loaded joins Rules, Nat and Ipfw: what ipfw makes of the commands of the forms (Loaded/Verdict for
--   the rules, Loaded/Refused for the forwards), of the rule for NAT (Loaded/Nat), and of the script at
--   the boot (Loaded/Booted). Loaded/Spec says what a rule of the forms means to the kernel,
--   with the ICMP type of Echo Request as a parameter: rules.c writes 5, and ipfw's manual has 8.
-- * Monitor is closedbsd/config/mon.c, the window of recent connections: `filter_packet` and `log_syn`,
--   and the loop over what pcap hands them. Monitor/Rows says which packets open a connection and
--   where its line stands, Monitor/Lines what log_syn prints, Monitor/Packets what becomes of one
--   packet, Monitor/Recent what the rows show. A packet is its length with the memory from its first
--   byte on, and how far that may be read.
--
-- Memory that the program does not own is a parameter: `junk` is what the stack holds in
-- `rule.other_a`, which filter.c never sets, the records Stack of PortForward and IfsCfg/Store are what
-- it holds in the variables that forward.c and ifcon.c do not set, and `beyond` is what lies behind
-- the table of the menu, which `drop_rule` reads past its end. printf of a null pointer prints
-- "(null)", as the libc does. Only two loops of ipfw run on fuel: the one over the options of a rule has
-- a round for each word, since a round takes a word at least, and the one over the ICMP types a round
-- for each byte. Every other loop ends with the list of lines, records, keys, edits or choices that
-- it reads.
--
-- Not modelled: frames, colours, buttons and help texts drawn by curses, the tables and the fixed
-- texts of libdialog's menus, the boot program's mounts and processes, the monitor's counters, the command
-- reboot, the pipes and the listings of ipfw and its files of commands, and the other FreeBSD programs
-- under bin, sbin, usr.bin and usr.sbin. closedbsd/ipfwconfig is a copy of the rules' code and of the
-- forms of closedbsd/config.
pub mod Advanced
pub mod Base
pub mod Boot
pub mod Boxes
pub mod Btree
pub mod Devices
pub mod Fault
pub mod Filter
pub mod Firewall
pub mod IfsCfg
pub mod Ipfw
pub mod Keyboard
pub mod Loaded
pub mod Login
pub mod Monitor
pub mod Nat
pub mod Passwd
pub mod PortForward
pub mod Rules
pub mod Saving
pub mod Setup
pub mod Summary
pub mod Text
pub mod World
