-- ===== src/Header/Source.antt =====
-- tools/gen_policy_header.py: the text of policy_generated.h, and when `main` writes it.
use mininet_zone_segmentatio.Base.{
  ℕ, String, Bool, true, false, Option, none, some, List, [], ◌∷◌, ◌++◌, ◌==◌, ◌&&◌, nat_eq,
  list_eq, string_eq, keys, length, Result, ok, err, if◌then◌else◌,
}
use mininet_zone_segmentatio.Text.{codes}
use mininet_zone_segmentatio.Text.Print.{decimal_text, hex8}
use mininet_zone_segmentatio.Address.Print.{network_text}
use mininet_zone_segmentatio.Policy.{Zones, Pairs, Policy}
use mininet_zone_segmentatio.Policy.Load.{PolicyError}
use mininet_zone_segmentatio.Header.{all_usable, sort_rows, without_keys}

abbrev pub Text : Type 0
Text = List ℕ

-- The exceptions of `render`: the PolicyError of a zone that C++ cannot name, and the ValueError of a
-- pair that names no zone.
pub data RenderError : Type 0 where
  unusable : RenderError
  value_error : RenderError

-- `'    {{Zone::{}, Zone::{}}},\n'` for each row.
unfoldable pub pair_lines : Pairs → Text
pair_lines [] = []
pair_lines ((s, d) ∷ rows) =
    codes "    {Zone::"
    ++ (codes s ++ (codes ", Zone::" ++ (codes d ++ (codes "},\n" ++ pair_lines rows))))

-- `decl`
unfoldable pub decl : Text → Pairs → Text
decl name [] = codes "const std::pair<Zone, Zone> " ++ (name ++ codes "[1] = {};\n")
decl name (p ∷ rows) =
    codes "const std::pair<Zone, Zone> "
    ++ (name ++ (codes "[] = {\n" ++ (pair_lines (p ∷ rows) ++ codes "};\n")))

-- The declaration of a table, and of its count.
unfoldable pub table_text : Text → Pairs → Text
unfolding decl
table_text name rows =
    decl name rows
    ++ (codes "constexpr size_t "
        ++ (name ++ (codes "Count = " ++ (decimal_text (length rows) ++ codes ";\n"))))

-- `zone_rows`
unfoldable pub zone_lines : Zones → Text
zone_lines [] = []
zone_lines ((name, z) ∷ zones) =
    codes "    {Zone::"
    ++ (codes name
        ++ (codes ", 0x"
            ++ (hex8 z.subnet.network_address
                ++ (codes "u, "
                    ++ (decimal_text z.subnet.prefixlen
                        ++ (codes ", \""
                            ++ (codes name
                                ++ (codes "\"},  // "
                                    ++ (network_text z.subnet
                                        ++ (codes "\n" ++ zone_lines zones))))))))))

-- `', '.join(order)`
unfoldable pub comma_separated : List String → Text
comma_separated [] = []
comma_separated (name ∷ []) = codes name
comma_separated (name ∷ order) = codes name ++ (codes ", " ++ comma_separated order)

-- The template.
unfoldable pub template : Text → Text → Text → Text → Text → Text
template source enumerators rows block_all block_icmp =
    codes "// GENERATED by tools/gen_policy_header.py from "
    ++ (source
        ++ (codes " -- do not edit.\n// Change "
            ++ (source
                ++ (codes
                      " instead; `make -C cpp` regenerates this file.\n#pragma once\n\n#include <cstddef>\n#include <cstdint>\n#include <utility>\n\nnamespace {\n\nenum class Zone : uint8_t { "
                    ++ (enumerators
                        ++ (codes
                              ", Unknown };\n\nstruct SubnetZone {\n    Zone zone;\n    uint32_t network;    // host byte order\n    uint32_t prefix_len;\n    const char* name;    // for logging only\n};\n\nconst SubnetZone kZones[] = {\n"
                            ++ (rows
                                ++ (codes "};\n\n"
                                    ++ (block_all
                                        ++ (codes "\n"
                                            ++ (block_icmp ++ codes "\n}  // namespace\n")))))))))))

-- The text of the tables, once their rows are sorted.
unfoldable pub with_rows : Text → Zones → Option Pairs → Option Pairs → Result RenderError Text
with_rows source zones (some all) (some icmp) = ok (
    template source (comma_separated (keys zones)) (zone_lines zones)
      (table_text (codes "kBlockAllIp") all) (table_text (codes "kBlockIcmp") icmp))
with_rows source zones _ _ = err value_error

-- `sorted(table, key=...)`
unfoldable pub sorted_rows : List String → Pairs → Option Pairs
sorted_rows order table = elim (sort_rows order table []) [
  | none ↦ none
  | some rows ↦ some (without_keys rows)
]

-- `render`
unfoldable pub render_text : Text → Zones → Pairs → Pairs → Result RenderError Text
unfolding with_rows sorted_rows
render_text source zones block_all_ip block_icmp =
    if all_usable (keys zones)
    then with_rows source zones (sorted_rows (keys zones) block_all_ip)
        (sorted_rows (keys zones) block_icmp)
    else err unusable

-- Reading a text file: a carriage return, alone or before a line feed, is read as a line feed. The flag
-- says that the character before was a carriage return.
unfoldable pub newlines_from : Bool → Text → Text
newlines_from after [] = []
newlines_from after (c ∷ cs) = elim (c == b'\r') [
  | true ↦ b'\n' ∷ newlines_from true cs
  | false ↦ elim (after && c == b'\n') [
    | true ↦ newlines_from false cs
    | false ↦ c ∷ newlines_from false cs
  ]
]

unfoldable pub universal_newlines : Text → Text
unfolding newlines_from
universal_newlines = newlines_from false

-- What `main` does. `exits` is `sys.exit('policy error: ...')`, `crashes` a ValueError, and
-- `crashes_emptied` one in the writing of a file, which is empty then; `fails` is an OSError.
pub data Action : Type 0 where
  exits : Action
  crashes : Action
  crashes_emptied : Action
  fails : Action
  prints : Text → Action
  leaves : Action
  writes : Text → Action

-- What opening a file and reading it comes to: FileNotFoundError, another OSError,
-- UnicodeDecodeError (a ValueError), or its text.
pub data Reading : Type 0 where
  not_found unreadable undecodable : Reading
  holds : Text → Reading

-- A file, and whether it can be opened for writing.
pub record File : Type 0 where
  pub reading : Reading
  pub writable : Bool

-- `f.write(header)` after `open(args.output, 'w', newline='\n')`. `encodes` tells what the encoding
-- of the locale can write; the rest is a UnicodeEncodeError (a ValueError).
unfoldable pub save : (Text → Bool) → Text → Bool → Action
save encodes header writable =
    if writable then (if encodes header then writes header else crashes_emptied) else fails

-- The file that `-o` names, if it names one.
unfoldable pub put : (Text → Bool) → Text → Option File → Action
unfolding save
put encodes header none = if encodes header then prints header else crashes
put encodes header (some file) = elim file.reading [
  | not_found ↦ save encodes header file.writable
  | unreadable ↦ fails
  | undecodable ↦ crashes
  | holds text ↦
      if universal_newlines text == header then leaves else save encodes header file.writable
]

unfoldable pub with_header : (Text → Bool) → Result RenderError Text → Option File → Action
unfolding put
with_header encodes (err unusable) output = exits
with_header encodes (err value_error) output = crashes
with_header encodes (ok header) output = put encodes header output

-- `main`, from the base name of the policy file and its document.
unfoldable pub generate : (Text → Bool) → Text → Result PolicyError Policy → Option File → Action
unfolding with_header
generate encodes source (err e) output = exits
generate encodes source (ok p) output =
    with_header encodes (render_text source p.zones p.block_all_ip p.block_icmp) output

-- The file after `main`.
unfoldable pub file_after : File → Action → File
file_after file (writes text) = record file { reading = holds text }
file_after file crashes_emptied = record file { reading = holds [] }
file_after file _ = file
