-- ===== src/Metadata/Origin.antt =====
-- The metadata that `Metadata::read` of src/metadata.rs gives is a function of the image's contents.
use winluks.Base.{ℕ, ◌≡◌, refl, ◌∙◌, List, arith}
use winluks.Base.Contents.{Contents, slice, slice-ext}
use winluks.Error.{Result, Outcome, ok, err, panic, unfinished, ◌>>=◌}
use winluks.Image.Os.{Backend, IsFile}
use winluks.Image.{Image, read_exact_at}
use winluks.Image.Access.{
  read_exact_at-slice, read_exact_at-contents, read_exact_at-geometry, read_exact_at-size,
}
use winluks.Crypto.Primitives.{Libraries}
use winluks.Metadata.{Metadata}
use winluks.Metadata.Header
use winluks.Metadata.Header.{
  Codecs, Header, accept, check_fixed, check_names, build_header, lift, with_bytes, checked,
  read_whole, with_header,
}

module _ (codecs : Codecs) (P : Libraries) where
  -- A header of a file with these contents.
  abbrev pub header_of : Contents → ℕ → Result Header
  header_of c offset = do
    size ← check_fixed (slice c offset 4096) offset
    names ← check_names codecs P (slice c offset 4096)
    build_header codecs P (slice c offset 4096) (slice c offset size) size names

  -- The metadata of an image with these contents and this length.
  abbrev pub metadata_of : Backend → Contents → ℕ → Result Metadata
  metadata_of B c len = do a ← header_of c 0; b ← header_of c a.size; accept codecs P B a b len

  module _ {B : Backend} (L : IsFile B) where
    abbrev contents_of : Image B → Contents
    contents_of im = L.contents im.file

    -- The result of a call that reads only, and what it leaves as it was.
    pub record IsRead {A : Type 0} (im : Image B) (r : Result A) (x : Outcome A × Image B)
        : Type 0 where
      pub found : (a : A) → x.0 ≡ ok a → r ≡ ok a
      pub kept : (i : ℕ) → contents_of x.1 i ≡ contents_of im i
      pub len : x.1.len ≡ im.len
      pub file_size : L.size x.1.file ≡ L.size im.file

    -- A step of the reading, for an image that is still as `im` was.
    record IsSame (im jm : Image B) : Type 0 where
      contents : (i : ℕ) → contents_of jm i ≡ contents_of im i
      size : jm.len ≡ im.len
      file_size : L.size jm.file ≡ L.size im.file

    with_bytes-IsRead :
        {A : Type 0} (im jm : Image B) (offset n : ℕ) (r : List ℕ → Result A)
        → (next : List ℕ → Image B → Outcome A × Image B) → IsSame im jm
        → ((bytes : List ℕ) (km : Image B) → IsSame im km → IsRead im (r bytes) (next bytes km))
        → IsRead im
            (r (slice (contents_of im) offset n))
            (with_bytes codecs P B (read_exact_at B jm offset n) next)
    with_bytes-IsRead im jm offset n r next same h =
        by_result (read_exact_at B jm offset n) after (λ bytes e.
          read_exact_at-slice B L jm offset n bytes e
          ∙ slice-ext (contents_of jm) (contents_of im) offset n (λ i _ _. same.contents i))
      where
        after : IsSame im (read_exact_at B jm offset n).1
        after = record {
          contents = λ i. read_exact_at-contents B L jm offset n i ∙ same.contents i;
          size = (read_exact_at-geometry B jm offset n).0 ∙ same.size;
          file_size = read_exact_at-size B L jm offset n ∙ same.file_size;
        }

        by_result :
            (x : Outcome (List ℕ) × Image B)
            → IsSame im x.1
            → ((bytes : List ℕ) → x.0 ≡ ok bytes → bytes ≡ slice (contents_of im) offset n)
            → IsRead im (r (slice (contents_of im) offset n)) (with_bytes codecs P B x next)
        by_result (ok bytes, km) s e = rw (← e bytes refl) (h bytes km s)
        by_result (err x, km) s e = record {
          found = λ a q. absurd (cc);
          kept = s.contents;
          len = s.size;
          file_size = s.file_size;
        }
        by_result (panic, km) s e = record {
          found = λ a q. absurd (cc);
          kept = s.contents;
          len = s.size;
          file_size = s.file_size;
        }
        by_result (unfinished, km) s e = record {
          found = λ a q. absurd (cc);
          kept = s.contents;
          len = s.size;
          file_size = s.file_size;
        }

    lift-IsRead :
        {A : Type 0} (im jm : Image B) (r : Result A)
        → IsSame im jm
        → IsRead im r (lift codecs P B r jm)
    lift-IsRead im jm (ok a) s = record {
      found = λ b q. ground arith;
      kept = s.contents;
      len = s.size;
      file_size = s.file_size;
    }
    lift-IsRead im jm (err e) s = record {
      found = λ b q. absurd (cc);
      kept = s.contents;
      len = s.size;
      file_size = s.file_size;
    }

    checked-IsRead :
        {A E : Type 0} (im jm : Image B) (r : Result A) (f : A → Result E)
        → (next : A → Image B → Outcome E × Image B) → IsSame im jm
        → ((a : A) → IsRead im (f a) (next a jm))
        → IsRead im (r >>= f) (checked codecs P B r jm next)
    checked-IsRead im jm (ok a) f next s h = h a
    checked-IsRead im jm (err e) f next s h = record {
      found = λ b q. absurd (cc);
      kept = s.contents;
      len = s.size;
      file_size = s.file_size;
    }

    header-IsRead :
        (im jm : Image B) (offset : ℕ)
        → IsSame im jm
        → IsRead im (header_of (contents_of im) offset) (Header.header codecs P B jm offset)
    unfolding Header.header
    header-IsRead im jm offset s =
        with_bytes-IsRead im jm offset 4096
          (λ fixed. check_fixed fixed offset >>= λ size. check_names codecs P fixed >>= λ names.
            build_header codecs P fixed (slice (contents_of im) offset size) size names)
          _ s
          (λ fixed km t. checked-IsRead im km (check_fixed fixed offset) _ _ t (λ size.
            checked-IsRead im km (check_names codecs P fixed) _ _ t (λ names.
              with_bytes-IsRead im km offset size
                (λ bytes. build_header codecs P fixed bytes size names) _ t
                (λ bytes lm u.
                  lift-IsRead im lm (build_header codecs P fixed bytes size names) u))))

    with_header-IsRead :
        {A : Type 0} (im : Image B) (r : Result Header) (f : Header → Result A)
        → (x : Outcome Header × Image B) → (next : Header → Image B → Outcome A × Image B)
        → IsRead im r x
        → ((h : Header) (jm : Image B) → IsSame im jm → IsRead im (f h) (next h jm))
        → IsRead im (r >>= f) (with_header codecs P B x next)
    with_header-IsRead im r f (ok h, jm) next d n =
        rw (d.found h refl)
          (n h jm (record { contents = d.kept; size = d.len; file_size = d.file_size }))
    with_header-IsRead im r f (err x, jm) next d n = record {
      found = λ a q. absurd (cc);
      kept = d.kept;
      len = d.len;
      file_size = d.file_size;
    }
    with_header-IsRead im r f (panic, jm) next d n = record {
      found = λ a q. absurd (cc);
      kept = d.kept;
      len = d.len;
      file_size = d.file_size;
    }
    with_header-IsRead im r f (unfinished, jm) next d n = record {
      found = λ a q. absurd (cc);
      kept = d.kept;
      len = d.len;
      file_size = d.file_size;
    }

    -- Reading the metadata gives what the bytes of the image determine, and changes none of them, if the
    -- backend behaves as a file.
    pub read-IsRead :
        (im : Image B)
        → IsRead im (metadata_of B (contents_of im) im.len) (Header.read codecs P B im)
    unfolding Header.read
    read-IsRead im =
        let here : IsSame im im = record { contents = λ i. refl; size = refl; file_size = refl } in
        with_header-IsRead im (header_of (contents_of im) 0) _ (Header.header codecs P B im 0) _
          (header-IsRead im im 0 here)
          (λ a jm s.
            with_header-IsRead im (header_of (contents_of im) a.size) _
              (Header.header codecs P B jm a.size) _ (header-IsRead im jm a.size s)
              (λ b km t. lift-IsRead im km (accept codecs P B a b im.len) t))
