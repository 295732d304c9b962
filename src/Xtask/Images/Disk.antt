-- ===== src/Xtask/Images/Disk.antt =====
-- What the disk image holds. The crate fatfs is not part of the repository: its laws are those of its
-- documentation, for the calls that the tool makes.
use app_guestaspace.Base.{◌*◌, ◌≤◌, ◌≡◌, ◌≢◌, ◌∙◌, refl, true, false, Bool, Option, none, some}
use Prim.{tt}
use text.Mathlib.TextPositions.{eq_refl}
use text.Mathlib.TextEquality.{eq_iff}
use app_guestaspace.Xtask.{
  String, ◌==◌, Content, Files, Host, World, Task, Done, done, ◌>>=◌, set_file,
}
use app_guestaspace.Xtask.Images.{
  create_fat_disk_image, write_volume, set_len, fat, filled, disk_size, resized,
}

-- The file "sbin/gkernel" on a volume, and whether there is a directory "sbin".
pub record IsFat (H : Host) : Type 1 where
  pub IsVolume : Content → Type 0
  pub lookup : Content → Option Content
  pub has_sbin : Content → Bool
  pub formats :
      (c : Content)
      → c.len ≡ disk_size
      → (d : Content) × (H.format_volume H.fat32 c ≡ (true, d))
        × IsVolume d
        × (d.len ≡ c.len)
        × (lookup d ≡ none)
  pub opens :
      (c : Content)
      → IsVolume c
      → (d : Content) × (H.open_volume c ≡ (true, d))
        × IsVolume d
        × (d.len ≡ c.len)
        × (lookup d ≡ lookup c)
  pub makes_dir :
      (c : Content)
      → IsVolume c
      → lookup c ≡ none
      → (d : Content) × (H.create_dir "sbin" c ≡ (true, d))
        × IsVolume d
        × (d.len ≡ c.len)
        × (lookup d ≡ none)
        × (has_sbin d ≡ true)
  pub makes_file :
      (c : Content)
      → IsVolume c
      → lookup c ≡ none
      → has_sbin c ≡ true
      → (d : Content) × (H.create_file "sbin/gkernel" c ≡ (true, d))
        × IsVolume d
        × (d.len ≡ c.len)
        × (lookup d ≡ some (filled 0 0))
  -- A volume of 64 MB has room for a file of 60 MB.
  pub writes :
      (c contents : Content)
      → IsVolume c
      → c.len ≡ disk_size
      → lookup c ≡ some (filled 0 0)
      → contents.len ≤ 60 * 1024 * 1024
      → (d : Content) × (H.write_all "sbin/gkernel" contents c ≡ (true, d))
        × IsVolume d
        × (d.len ≡ c.len)
        × (lookup d ≡ some contents)
  pub flushes :
      (c : Content)
      → IsVolume c
      → (d : Content) × (H.flush "sbin/gkernel" c ≡ (true, d))
        × IsVolume d
        × (d.len ≡ c.len)
        × (lookup d ≡ lookup c)
  pub unmounts :
      (c : Content) → IsVolume c → ((H.unmount c).len ≡ c.len) × (lookup (H.unmount c) ≡ lookup c)

-- The world with another content of a file.
abbrev pub put : String → Content → World → World
put path c w = record w { files = set_file path c w.files }

-- The file is as said, every other file is as it was, and no command was run.
abbrev pub Differs : String → Content → World → World → Type 0
Differs path c w w1 =
    (w1.files path ≡ some c) × (w1.log ≡ w.log) × ((q : String) → q ≢ path → w1.files q ≡ w.files q)

==_false : (q path : String) → q ≢ path → (q == path) ≡ false
==_false q path ne = not_true (q == path) (λ e. ne ((eq_iff q path).0 e))
  where
    not_true : (b : Bool) → b ≢ true → b ≡ false
    not_true true h = absurd (h refl)
    not_true false h = refl

pub Differs-put : (path : String) (c : Content) (w : World) → Differs path c w (put path c w)
Differs-put path c w = (rw (eq_refl path), refl, λ q ne. rw (==_false q path ne))

Differs-put_again :
    (path : String) (c d : Content) (w w1 : World)
    → Differs path c w w1
    → Differs path d w (put path d w1)
Differs-put_again path c d w w1 (held, quiet, rest) =
    (rw (eq_refl path), quiet, λ q ne. rw (==_false q path ne) (rest q ne))

-- A call of fatfs that succeeds is followed by the rest.
fat_then :
    (path : String) (op : Content → Bool × Content) (c d : Content) (w : World)
    (k : Bool → Task Done)
    → w.files path ≡ some c
    → op c ≡ (true, d)
    → (fat path op >>= k) w ≡ k true (put path d w)
unfolding fat
fat_then path op c d w k e o = rw (◌>>=◌, fat, e, o)

module _ (H : Host) (L : IsFat H) (path : String) (w : World) where
  write_volume_lem :
      (contents c : Content) (w1 : World)
      → Differs path c w w1
      → c.len ≡ disk_size
      → contents.len ≤ 60 * 1024 * 1024
      → (w2 : World) × (write_volume H path contents w1 ≡ done tt w2)
        × (d : Content) × Differs path d w w2
        × (d.len ≡ disk_size)
        × (L.lookup d ≡ some contents)
  unfolding write_volume
  write_volume_lem contents c w1 x sized fits =
      let (c2, e2, v2, l2, f2) = L.formats c sized in
      let p2 = put path c2 w1 in
      let x2 = Differs-put_again path c c2 w w1 x in
      let (c3, e3, v3, l3, f3) = L.opens c2 v2 in
      let p3 = put path c3 p2 in
      let x3 = Differs-put_again path c2 c3 w p2 x2 in
      let (c4, e4, v4, l4, f4, s4) = L.makes_dir c3 v3 (f3 ∙ f2) in
      let p4 = put path c4 p3 in
      let x4 = Differs-put_again path c3 c4 w p3 x3 in
      let (c5, e5, v5, l5, f5) = L.makes_file c4 v4 f4 s4 in
      let p5 = put path c5 p4 in
      let x5 = Differs-put_again path c4 c5 w p4 x4 in
      let (c6, e6, v6, l6, f6) = L.writes c5 contents v5 (l5 ∙ l4 ∙ l3 ∙ l2 ∙ sized) f5 fits in
      let p6 = put path c6 p5 in
      let x6 = Differs-put_again path c5 c6 w p5 x5 in
      let (c7, e7, v7, l7, f7) = L.flushes c6 v6 in
      let p7 = put path c7 p6 in
      let x7 = Differs-put_again path c6 c7 w p6 x6 in
      let (l8, f8) = L.unmounts c7 v7 in
      let x8 = Differs-put_again path c7 (H.unmount c7) w p7 x7 in
      (
        put path (H.unmount c7) p7,
        fat_then path (H.format_volume H.fat32) c c2 w1 _ x.0 e2
            ∙ fat_then path H.open_volume c2 c3 p2 _ x2.0 e3
            ∙ fat_then path (H.create_dir "sbin") c3 c4 p3 _ x3.0 e4
            ∙ fat_then path (H.create_file "sbin/gkernel") c4 c5 p4 _ x4.0 e5
            ∙ fat_then path (H.write_all "sbin/gkernel" contents) c5 c6 p5 _ x5.0 e6
            ∙ fat_then path (H.flush "sbin/gkernel") c6 c7 p6 _ x6.0 e7
            ∙ fat_then path (λ c. (true, H.unmount c)) c7 (H.unmount c7) p7 _ x7.0 refl,
        H.unmount c7,
        x8,
        l8 ∙ l7 ∙ l6 ∙ l5 ∙ l4 ∙ l3 ∙ l2 ∙ sized,
        f8 ∙ f7 ∙ f6,
      )

  -- With room on the host's disk, the tool makes a volume of 64 MB in which the guest's binary, of at
  -- most 60 MB, is the file sbin/gkernel. No other file changes, and no command is run.
  pub create_fat_disk_image_lem :
      (payload_bin : String) (contents : Content)
      → w.files payload_bin ≡ some contents
      → contents.len ≤ 60 * 1024 * 1024
      → H.writable path w.files ≡ true
      → ((files : Files) → H.resizable path disk_size files ≡ true)
      → (w1 : World) × (create_fat_disk_image H path payload_bin w ≡ done tt w1)
        × (d : Content) × Differs path d w w1
        × (d.len ≡ disk_size)
        × (L.lookup d ≡ some contents)
  unfolding create_fat_disk_image set_len
  create_fat_disk_image_lem payload_bin contents there fits may_write may_grow =
      let w1 = put path (filled 0 0) w in
      let w2 = put path (resized disk_size (filled 0 0)) w1 in
      let x =
        Differs-put_again path (filled 0 0) (resized disk_size (filled 0 0)) w w1
          (Differs-put path (filled 0 0) w) in
      let (w3, made, d, differs, size, found) =
        write_volume_lem contents (resized disk_size (filled 0 0)) w2 x refl fits in
      (
        w3,
        rw (◌>>=◌, there, may_write, may_grow w1.files, eq_refl path) made,
        d,
        differs,
        size,
        found,
      )
