-- ===== src/Tests/Headers.antt =====
-- The theorems on the text of the generated header, and on addresses as text, at the policy that ships
-- with the program.
use mininet_zone_segmentatio.Base.{
  ◌≡◌, refl, Bool, true, false, ◌&&◌, leb, ◌∷◌, some, [], nat_eq, string_eq, list_eq, contains,
  keys, ok,
}
use mininet_zone_segmentatio.Text.{codes, is_digit}
use mininet_zone_segmentatio.Text.Print.{decimal_text, hex8}
use mininet_zone_segmentatio.Address.Print.{address_text, network_text}
use mininet_zone_segmentatio.Policy.Load.{load_policy}
use mininet_zone_segmentatio.Policy.Shipped.{document, policy, load_policy-document}
use mininet_zone_segmentatio.Header.{
  usable, all_usable, index, key, before, insert_row, sort_rows, without_keys,
}
use mininet_zone_segmentatio.Header.Source.{
  Text, pair_lines, decl, table_text, zone_lines, comma_separated, template, with_rows, sorted_rows,
  render_text, universal_newlines, newlines_from, Reading, undecodable, holds, File, put,
  with_header, leaves, generate, file_after,
}
use mininet_zone_segmentatio.Header.Generated.{
  IsValueError, Cause, generate-Cause, readable, generate-settles,
}

abbrev source : Text
source = codes "policy.json"

abbrev header : Text
header =
    codes
      "// GENERATED by tools/gen_policy_header.py from policy.json -- do not edit.\n// Change policy.json instead; `make -C cpp` regenerates this file.\n#pragma once\n\n#include <cstddef>\n#include <cstdint>\n#include <utility>\n\nnamespace {\n\nenum class Zone : uint8_t { DeptA, DeptB, DataCenter, Trust, Untrust, Unknown };\n\nstruct SubnetZone {\n    Zone zone;\n    uint32_t network;    // host byte order\n    uint32_t prefix_len;\n    const char* name;    // for logging only\n};\n\nconst SubnetZone kZones[] = {\n    {Zone::DeptA, 0x0A010100u, 24, \"DeptA\"},  // 10.1.1.0/24\n    {Zone::DeptB, 0x0A010200u, 24, \"DeptB\"},  // 10.1.2.0/24\n    {Zone::DataCenter, 0x0A010300u, 24, \"DataCenter\"},  // 10.1.3.0/24\n    {Zone::Trust, 0xC02F2600u, 24, \"Trust\"},  // 192.47.38.0/24\n    {Zone::Untrust, 0x6C231800u, 24, \"Untrust\"},  // 108.35.24.0/24\n};\n\nconst std::pair<Zone, Zone> kBlockAllIp[] = {\n    {Zone::DataCenter, Zone::Trust},\n    {Zone::DataCenter, Zone::Untrust},\n    {Zone::Trust, Zone::DataCenter},\n    {Zone::Untrust, Zone::DataCenter},\n};\nconstexpr size_t kBlockAllIpCount = 4;\n\nconst std::pair<Zone, Zone> kBlockIcmp[] = {\n    {Zone::DeptA, Zone::DeptB},\n    {Zone::DeptB, Zone::DeptA},\n    {Zone::Trust, Zone::DeptB},\n    {Zone::Untrust, Zone::DeptA},\n    {Zone::Untrust, Zone::DeptB},\n    {Zone::Untrust, Zone::DataCenter},\n};\nconstexpr size_t kBlockIcmpCount = 6;\n\n}  // namespace\n"

render_text-policy :
    render_text source policy.zones policy.block_all_ip policy.block_icmp ≡ ok header
unfolding render_text with_rows sorted_rows template comma_separated zone_lines table_text decl
    pair_lines all_usable usable sort_rows without_keys insert_row before key index string_eq nat_eq
    is_digit keys decimal_text hex8 network_text address_text
render_text-policy = refl

header-clean : contains header b'\r' ≡ false
unfolding contains nat_eq
header-clean = refl

-- An encoding that can write ASCII.
abbrev ascii : Text → Bool
ascii [] = true
ascii (c ∷ cs) = leb c 127 && ascii cs

abbrev broken_file : File
broken_file = record { reading = undecodable; writable = true }

broken_file-IsValueError :
    IsValueError (generate ascii source (load_policy (some document)) (some broken_file))
unfolding generate with_header put IsValueError
broken_file-IsValueError = rw (load_policy-document, render_text-policy) tt

generate-Cause_example : Cause ascii source (some document) (some broken_file)
generate-Cause_example =
    generate-Cause ascii source (some document) (some broken_file) broken_file-IsValueError

abbrev stale : Reading
stale = holds (codes "old")

header-ascii : ascii header ≡ true
header-ascii = refl

generate-settles_example :
    (let file : File = record { reading = stale; writable = true } in
      let after = file_after file (generate ascii source (ok policy) (some file)) in
      ((text : Text) × (after ≡ record { reading = holds text; writable = true })
        × (universal_newlines text ≡ header))
      × (generate ascii source (ok policy) (some after) ≡ leaves))
generate-settles_example =
    generate-settles ascii source policy header stale render_text-policy header-clean header-ascii
      (readable (codes "old"))

universal_newlines_test : universal_newlines (codes "a\r\nb\rc\n") ≡ codes "a\nb\nc\n"
unfolding universal_newlines newlines_from nat_eq
universal_newlines_test = refl

address_text_test : address_text 167838642 ≡ codes "10.1.3.178"
unfolding address_text decimal_text
address_text_test = refl
