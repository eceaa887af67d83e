-- ===== src/Up/Copied.antt =====
-- The certificate and its key behind "up" on the master.
use lazyjack.Base.{
  Bytes, [], Option, some, ◌≡◌, ◌≢◌, refl, ◌∙◌, str, Result, ok, err, panic, Done, pure, fail,
  recover, follow,
}
use lazyjack.Base.Rules.{Keeps, Keeps->>=, Keeps-wrap, Keeps-recover, Keeps-pure, Keeps-fail}
use lazyjack.Base.Yields.{Yields, Yields->>=, Yields-wrap, Yields-keep, Yields-behind}
use lazyjack.World.{Os}
use lazyjack.World.Path.{join_path}
use lazyjack.Config.{cert_area}
use lazyjack.Up.{
  closed, copy_data, behind_close, source_closed, copy_opened, copy_file,
  place_certificate_and_key_for_ca,
}

-- What the operating system documents of `os.Open`, `os.Create`, `io.Copy`, `Sync`, `Close` and
-- `os.MkdirAll`, by the contents of the files. A copy that fails may have written a part.
pub record CopyLaws (o : Os) (content : Bytes → o.World → Option Bytes) : Type 0 where
  pub open_keeps : (f g : Bytes) → Keeps (content g) (o.open_source f)
  pub create_empty :
      (f : Bytes) (w : o.World)
      → (o.create_file f w).0 ≡ ok tt
      → content f (o.create_file f w).1 ≡ some []
  pub create_keeps : (f g : Bytes) → g ≢ f → Keeps (content g) (o.create_file f)
  pub copy_content :
      (d s : Bytes) (w : o.World)
      → content d w ≡ some []
      → (o.copy_into d s w).0 ≡ ok tt
      → content d (o.copy_into d s w).1 ≡ content s w
  pub copy_keeps : (d s g : Bytes) → g ≢ d → Keeps (content g) (o.copy_into d s)
  pub sync_keeps : (f g : Bytes) → Keeps (content g) (o.sync_file f)
  pub close_keeps : (f g : Bytes) → Keeps (content g) (o.close_file f)
  pub mkdir_keeps : (f g : Bytes) → Keeps (content g) (o.mkdir_all f)

module _ (o : Os) (content : Bytes → o.World → Option Bytes) (L : CopyLaws o content) where
  module _ (name src dst : Bytes) where
    closed_state :
        (g : Bytes) (r : Result Done × o.World)
        → content g (closed o name (join_path dst name) r).1 ≡ content g r.1
    unfolding closed
    closed_state g (ok _, w) = (Keeps-wrap _ (L.close_keeps (join_path dst name) g)).kept_part w
    closed_state g (err e, w) =
        (Keeps->>= (Keeps-recover (L.close_keeps (join_path dst name) g) (λ _. Keeps-pure))
            (λ _. Keeps-fail)).kept_part
          w
    closed_state g (panic, w) = refl

    closed_error :
        (e : Bytes) (r : Result Done × o.World)
        → (follow (λ _. fail {S = o.World} {A = Done} e) r).0 ≢ ok tt
    closed_error e (ok _, w) h = cc
    closed_error e (err x, w) h = cc
    closed_error e (panic, w) h = cc

    closed_ok :
        (r : Result Done × o.World) → (closed o name (join_path dst name) r).0 ≡ ok tt → r.0 ≡ ok tt
    unfolding closed
    closed_ok (ok _, w) h = refl
    closed_ok (err e, w) h =
        absurd (closed_error e (recover (o.close_file (join_path dst name)) (λ _. pure tt) w) h)
    closed_ok (panic, w) h = cc

    behind_close_state :
        (g : Bytes) (x : Result Done) (r : Result Done × o.World)
        → content g (behind_close o x r).1 ≡ content g r.1
    unfolding behind_close
    behind_close_state g x (ok _, w) = refl
    behind_close_state g x (err e, w) = refl
    behind_close_state g x (panic, w) = refl

    behind_close_ok :
        (x : Result Done) (r : Result Done × o.World) → (behind_close o x r).0 ≡ ok tt → x ≡ ok tt
    unfolding behind_close
    behind_close_ok x (ok _, w) h = h
    behind_close_ok x (err e, w) h = h
    behind_close_ok x (panic, w) h = cc

    source_closed_state :
        (g path : Bytes) (r : Result Done × o.World)
        → content g (source_closed o path r).1 ≡ content g r.1
    unfolding source_closed
    source_closed_state g path (x, w) =
        behind_close_state g x (o.close_file path w) ∙ (L.close_keeps path g).kept_part w

    source_closed_ok :
        (path : Bytes) (r : Result Done × o.World)
        → (source_closed o path r).0 ≡ ok tt
        → r.0 ≡ ok tt
    unfolding source_closed
    source_closed_ok path (x, w) h = behind_close_ok x (o.close_file path w) h

    copy_opened-Keeps :
        (g : Bytes) → g ≢ join_path dst name → Keeps (content g) (copy_opened o name src dst)
    unfolding copy_opened copy_data
    copy_opened-Keeps g ne =
        let copied : Keeps (content g) (copy_data o name src dst) =
          Keeps->>= (Keeps-wrap _ (L.copy_keeps _ _ g ne)) (λ _. Keeps-wrap _ (L.sync_keeps _ g)) in
        Keeps->>= (Keeps-wrap _ (L.create_keeps _ g ne)) λ _. record {
          kept_part = λ s. closed_state g (copy_data o name src dst s) ∙ copied.kept_part s;
        }

    copy_file-Keeps :
        (g : Bytes) → g ≢ join_path dst name → Keeps (content g) (copy_file o name src dst)
    unfolding copy_file
    copy_file-Keeps g ne = Keeps->>= (Keeps-wrap _ (L.open_keeps _ g)) λ _. record {
      kept_part = λ s.
          source_closed_state g (join_path src name) (copy_opened o name src dst s)
          ∙ (copy_opened-Keeps g ne).kept_part s;
    }

    copy_opened-copied :
        (x : Option Bytes)
        → join_path src name ≢ join_path dst name
        → Yields
            (copy_opened o name src dst)
            (λ s. content (join_path src name) s ≡ x)
            (λ _ s. content (join_path dst name) s ≡ x)
    unfolding copy_opened copy_data
    copy_opened-copied x ne =
        let to = join_path dst name in
        let from = join_path src name in
        let copied : Yields (copy_data o name src dst)
            (λ s. (content from s ≡ x) × (content to s ≡ some [])) (λ _ s. content to s ≡ x) =
          Yields->>=
            (Yields-wrap _ (record { yielded = λ s a (p, q) e. L.copy_content to from s q e ∙ p }))
            λ _. Yields-keep (λ y. y ≡ x) (Keeps-wrap _ (L.sync_keeps to to)) in
        Yields->>= {Q = λ _ s. (content from s ≡ x) × (content to s ≡ some [])}
          (Yields-wrap _ (record {
            yielded =
                λ s a p e. ((L.create_keeps to from ne).kept_part s ∙ p, L.create_empty to s e);
          }))
          λ _. record {
            yielded = λ s a p e.
                closed_state to (copy_data o name src dst s)
                ∙ copied.yielded s tt p (closed_ok (copy_data o name src dst s) e);
          }

    copy_file-copied :
        (x : Option Bytes)
        → join_path src name ≢ join_path dst name
        → Yields
            (copy_file o name src dst)
            (λ s. content (join_path src name) s ≡ x)
            (λ _ s. content (join_path dst name) s ≡ x)
    unfolding copy_file
    copy_file-copied x ne =
        let from = join_path src name in
        Yields-behind (λ y. y ≡ x) (Keeps-wrap _ (L.open_keeps from from))
          λ _. record {
            yielded = λ s a p e.
                source_closed_state (join_path dst name) from (copy_opened o name src dst s)
                ∙ (copy_opened-copied x ne).yielded s tt p
                    (source_closed_ok from (copy_opened o name src dst s) e);
          }

  -- If "up" places the certificate and its key with success, each of the two files holds afterwards what its source
  -- held before; provided that no source is overwritten and the two copies are two paths.
  pub place_certificate_and_key_for_ca-copied :
      (base dst : Bytes) (w : o.World)
      → join_path (join_path base cert_area) (str "ca.crt") ≢ join_path dst (str "ca.crt")
      → join_path (join_path base cert_area) (str "ca.key") ≢ join_path dst (str "ca.key")
      → join_path (join_path base cert_area) (str "ca.key") ≢ join_path dst (str "ca.crt")
      → join_path dst (str "ca.crt") ≢ join_path dst (str "ca.key")
      → (place_certificate_and_key_for_ca o base dst w).0 ≡ ok tt
      → (content (join_path dst (str "ca.crt")) (place_certificate_and_key_for_ca o base dst w).1
          ≡ content (join_path (join_path base cert_area) (str "ca.crt")) w)
        × (content (join_path dst (str "ca.key")) (place_certificate_and_key_for_ca o base dst w).1
            ≡ content (join_path (join_path base cert_area) (str "ca.key")) w)
  unfolding place_certificate_and_key_for_ca
  place_certificate_and_key_for_ca-copied base dst w crt key free two e =
      placed.yielded w tt (refl, refl) e
    where
      src : Bytes
      src = join_path base cert_area

      x : Option Bytes
      x = content (join_path src (str "ca.crt")) w

      y : Option Bytes
      y = content (join_path src (str "ca.key")) w

      placed :
          Yields
            (place_certificate_and_key_for_ca o base dst)
            (λ s.
              (content (join_path src (str "ca.crt")) s ≡ x)
              × (content (join_path src (str "ca.key")) s ≡ y))
            (λ _ s.
              (content (join_path dst (str "ca.crt")) s ≡ x)
              × (content (join_path dst (str "ca.key")) s ≡ y))
      placed =
          Yields->>=
            {Q = λ _ s.
              (content (join_path src (str "ca.crt")) s ≡ x)
              × (content (join_path src (str "ca.key")) s ≡ y)}
            (Yields-wrap _ (record {
              yielded = λ s a (p, q) e.
                  ((L.mkdir_keeps dst _).kept_part s ∙ p, (L.mkdir_keeps dst _).kept_part s ∙ q);
            }))
            λ _.
              Yields->>=
                {Q = λ _ s.
                  (content (join_path dst (str "ca.crt")) s ≡ x)
                  × (content (join_path src (str "ca.key")) s ≡ y)}
                (record {
                  yielded = λ s a (p, q) e. (
                    (copy_file-copied (str "ca.crt") src dst x crt).yielded s a p e,
                    (copy_file-Keeps (str "ca.crt") src dst (join_path src (str "ca.key"))
                            free).kept_part
                          s
                        ∙ q,
                  );
                })
                λ _. record {
                  yielded = λ s a (p, q) e. (
                    (copy_file-Keeps (str "ca.key") src dst (join_path dst (str "ca.crt"))
                            two).kept_part
                          s
                        ∙ p,
                    (copy_file-copied (str "ca.key") src dst y key).yielded s a q e,
                  );
                }
