-- ===== src/Header/Generated.antt =====
-- tools/gen_policy_header.py: `main` writes the header of every accepted policy whose zones C++ can name,
-- and only when its text changes.
use mininet_zone_segmentatio.Base.{
  ℕ, suc, String, ◌≡◌, ◌≢◌, refl, ap, true, false, Option, none, some, List, [], ◌∷◌, ◌==◌, ==_iff,
  nat_eq, string_eq, list_eq, pair_eq, contains, Dict, keys, lookup, has_key, arith, Result, ok,
  err, inl, inr, Bool-cases,
}
use mininet_zone_segmentatio.Base.{Bool, ◌⊎◌, if◌then◌else◌}
use mininet_zone_segmentatio.Policy.{Zone, Zones, Pairs, Policy}
use mininet_zone_segmentatio.Policy.Load.{RawPolicy, PolicyError, load_policy}
use mininet_zone_segmentatio.Policy.Validity.{IsValid, load_policy-IsValid}
use mininet_zone_segmentatio.Header.{
  Key, all_usable, index, key, insert_row, sort_rows, without_keys,
}
use mininet_zone_segmentatio.Header.Source.{
  Text, RenderError, unusable, value_error, with_rows, sorted_rows, render_text, newlines_from,
  universal_newlines, Action, crashes, crashes_emptied, fails, leaves, Reading, not_found,
  unreadable, undecodable, holds, File, save, put, with_header, generate, file_after,
}

-- A name of the order has an index.
index-some :
    (order : Dict String Zone) (name : String)
    → has_key name order ≡ true
    → (i : ℕ) × (index (keys order) name ≡ some i)
unfolding index lookup keys
index-some [] name h = cc
index-some ((n, z) ∷ order) name h = elim (Bool-cases (n == name)) [
  | inl same ↦ (0, rw same refl)
  | inr other ↦ let (i, e) = index-some order name (ground arith) in (suc i, rw (other, e) refl)
]

abbrev Known : Zones → Pairs → Type 0
Known zones table =
    (s d : String)
    → contains table (s, d) ≡ true
    → (has_key s zones ≡ true) × (has_key d zones ≡ true)

sort_rows-some :
    (zones : Zones) (table : Pairs) (rows : List (Key × (String × String)))
    → Known zones table
    → (sorted : List (Key × (String × String))) × (sort_rows (keys zones) table rows ≡ some sorted)
unfolding sort_rows key contains
sort_rows-some zones [] rows known = (rows, refl)
sort_rows-some zones ((s, d) ∷ table) rows known =
    let (ks, kd) = known s d (ground arith) in
    let (i, ie) = index-some zones s ks in
    let (j, je) = index-some zones d kd in
    let (sorted, e) =
      sort_rows-some zones table (insert_row (i, j) (s, d) rows)
        (λ x y c. known x y (ground arith)) in
    (sorted, rw (ie, je) e)

sorted_rows-some :
    (zones : Zones) (table : Pairs)
    → Known zones table
    → (rows : Pairs) × (sorted_rows (keys zones) table ≡ some rows)
unfolding sorted_rows
sorted_rows-some zones table known =
    let (sorted, e) = sort_rows-some zones table [] known in
    (without_keys sorted, rw (e, sorted_rows) refl)

-- `render` raises no ValueError for a policy that was accepted.
render_text-ok :
    (source : Text) (p : Policy)
    → IsValid p
    → all_usable (keys p.zones) ≡ true
    → (header : Text) × (render_text source p.zones p.block_all_ip p.block_icmp ≡ ok header)
unfolding render_text with_rows
render_text-ok source p valid usable =
    let (all, ae) = sorted_rows-some p.zones p.block_all_ip valid.known_all in
    let (icmp, ie) = sorted_rows-some p.zones p.block_icmp valid.known_icmp in
    rw (usable, ae, ie) (_, refl)

-- Without a carriage return, reading changes nothing.
newlines_from-same : (text : Text) → contains text b'\r' ≡ false → newlines_from false text ≡ text
unfolding newlines_from contains
newlines_from-same [] h = refl
newlines_from-same (c ∷ cs) h =
    let other : (c == b'\r') ≡ false = ground arith in
    rw (other, newlines_from) (ap (λ (l : Text). c ∷ l) (newlines_from-same cs (ground arith)))

render_text-ne-value_error :
    (source : Text) (p : Policy)
    → IsValid p
    → render_text source p.zones p.block_all_ip p.block_icmp ≢ err value_error
unfolding render_text
render_text-ne-value_error source p valid h = elim (Bool-cases (all_usable (keys p.zones))) [
  | inl usable ↦ let (header, e) = render_text-ok source p valid usable in cc (e, h)
  | inr bad ↦
      let e : render_text source p.zones p.block_all_ip p.block_icmp ≡ err unusable = rw bad refl in
      cc (e, h)
]

-- A ValueError.
unfoldable pub IsValueError : Action → Type 0
IsValueError crashes = Unit
IsValueError crashes_emptied = Unit
IsValueError _ = ⊥

-- Why `main` may end in a ValueError: the file that `-o` names is there and cannot be decoded, or the
-- header cannot be encoded.
pub data Cause (encodes : Text → Bool) (source : Text) (document : Option RawPolicy)
    (output : Option File) : Type 0 where
  undecodable_output :
      (file : File)
      → output ≡ some file
      → file.reading ≡ undecodable
      → Cause encodes source document output
  unencodable_header :
      (p : Policy) (header : Text)
      → load_policy document ≡ ok p
      → render_text source p.zones p.block_all_ip p.block_icmp ≡ ok header
      → encodes header ≡ false
      → Cause encodes source document output

save-cause :
    (encodes : Text → Bool) (header : Text) (writable : Bool)
    → IsValueError (save encodes header writable)
    → encodes header ≡ false
unfolding save IsValueError
save-cause encodes header false h = elim h [ ]
save-cause encodes header true h = elim (Bool-cases (encodes header)) [
  | inl e ↦ absurd (rw e at h)
  | inr e ↦ e
]

put-cause :
    (encodes : Text → Bool) (header : Text) (output : Option File)
    → IsValueError (put encodes header output)
    → ((file : File) × (output ≡ some file) × (file.reading ≡ undecodable))
      ⊎ (encodes header ≡ false)
unfolding put IsValueError
put-cause encodes header none h = elim (Bool-cases (encodes header)) [
  | inl e ↦ absurd (rw e at h)
  | inr e ↦ inr e
]
put-cause encodes header (some file) h = by_reading file.reading refl h
  where
    differs_or_same :
        (b : Bool)
        → IsValueError (if b then leaves else save encodes header file.writable)
        → encodes header ≡ false
    differs_or_same true h = elim h [ ]
    differs_or_same false h = save-cause encodes header file.writable h

    by_reading :
        (r : Reading)
        → file.reading ≡ r
        → IsValueError (elim r [
          | not_found ↦ save encodes header file.writable
          | unreadable ↦ fails
          | undecodable ↦ crashes
          | holds text ↦
              if universal_newlines text == header
              then leaves
              else save encodes header file.writable
        ])
        → ((f : File) × (some file ≡ some f) × (f.reading ≡ undecodable)) ⊎ (encodes header ≡ false)
    by_reading not_found e h = inr (save-cause encodes header file.writable h)
    by_reading unreadable e h = elim h [ ]
    by_reading undecodable e h = inl (file, refl, e)
    by_reading (holds text) e h = inr (differs_or_same (universal_newlines text == header) h)

rendered-Cause :
    (encodes : Text → Bool) (source : Text) (document : Option RawPolicy) (p : Policy)
    (output : Option File) (r : Result RenderError Text)
    → load_policy document ≡ ok p
    → render_text source p.zones p.block_all_ip p.block_icmp ≡ r
    → r ≢ err value_error
    → IsValueError (with_header encodes r output)
    → Cause encodes source document output
unfolding with_header IsValueError
rendered-Cause encodes source document p output (err unusable) loaded e fine h = elim h [ ]
rendered-Cause encodes source document p output (err value_error) loaded e fine h =
    absurd (fine refl)
rendered-Cause encodes source document p output (ok header) loaded e fine h =
    elim (put-cause encodes header output h) [
      | inl (file, there, reads) ↦ undecodable_output file there reads
      | inr lost ↦ unencodable_header p header loaded e lost
    ]

loaded-Cause :
    (encodes : Text → Bool) (source : Text) (raw : RawPolicy) (output : Option File)
    (r : Result PolicyError Policy)
    → load_policy (some raw) ≡ r
    → IsValueError (generate encodes source r output)
    → Cause encodes source (some raw) output
unfolding generate IsValueError
loaded-Cause encodes source raw output (err e) loaded h = elim h [ ]
loaded-Cause encodes source raw output (ok p) loaded h =
    rendered-Cause encodes source (some raw) p output _ loaded refl
      (render_text-ne-value_error source p (load_policy-IsValid raw p loaded)) h

-- Whatever the policy file holds, if `main` ends in a ValueError, then the file that `-o` names is
-- there and cannot be decoded, or the policy is accepted and its header cannot be encoded: rendering
-- itself never raises one.
pub generate-Cause :
    (encodes : Text → Bool) (source : Text) (document : Option RawPolicy) (output : Option File)
    → IsValueError (generate encodes source (load_policy document) output)
    → Cause encodes source document output
unfolding generate load_policy IsValueError
generate-Cause encodes source none output h = elim h [ ]
generate-Cause encodes source (some raw) output h =
    loaded-Cause encodes source raw output (load_policy (some raw)) refl h

-- The file is not there, or it can be read.
pub data IsReadable : Reading → Type 0 where
  absent : IsReadable not_found
  readable : (text : Text) → IsReadable (holds text)

put-settles :
    (encodes : Text → Bool) (header : Text) (r : Reading)
    → IsReadable r
    → encodes header ≡ true
    → contains header b'\r' ≡ false
    → (let file : File = record { reading = r; writable = true } in
        (text : Text) × (file_after file (put encodes header (some file))
          ≡ record { reading = holds text; writable = true })
        × (universal_newlines text ≡ header))
unfolding put save file_after universal_newlines
put-settles encodes header _ absent fits clean =
    (header, rw fits refl, newlines_from-same header clean)
put-settles encodes header _ (readable text) fits clean =
    elim (Bool-cases (universal_newlines text == header)) [
      | inl same ↦ (text, rw same refl, (==_iff (universal_newlines text) header).0 same)
      | inr other ↦ (header, rw (other, fits) refl, newlines_from-same header clean)
    ]

-- With a policy whose header has no carriage return and can be encoded, and a file that can be
-- written, and that is not there or can be read: after `main` with `-o`, the file is there and reads
-- as the header, whatever it held before, and a second run leaves it as it is.
pub generate-settles :
    (encodes : Text → Bool) (source : Text) (p : Policy) (header : Text) (r : Reading)
    → render_text source p.zones p.block_all_ip p.block_icmp ≡ ok header
    → contains header b'\r' ≡ false
    → encodes header ≡ true
    → IsReadable r
    → (let file : File = record { reading = r; writable = true } in
        let after = file_after file (generate encodes source (ok p) (some file)) in
        ((text : Text) × (after ≡ record { reading = holds text; writable = true })
          × (universal_newlines text ≡ header))
        × (generate encodes source (ok p) (some after) ≡ leaves))
unfolding generate with_header put
generate-settles encodes source p header r rendered clean fits fine =
    let (text, there, reads) = put-settles encodes header r fine fits clean in
    let same : (universal_newlines text == header) ≡ true =
      (==_iff (universal_newlines text) header).1 reads in
    rw (rendered, generate) ((text, there, reads), rw there (rw same refl))
