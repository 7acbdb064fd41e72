-- ===== src/Asn/Emit/Rendering/Runs.antt =====
-- asn/tightbeam-asn/src/emit.rs: what a run over files writes.
use tightbeam_ext.Prelude.{◌≡◌, refl, ap, ◌∙◌, subst, List, arith, inl, inr}
use tightbeam_ext.Prelude.Keys.{nat_eq, list_eq}
use tightbeam_ext.Prelude.Result.{Result-cases, ok, err}
use tightbeam_ext.Asn.Emit.{Text, EmitOptions, no_codec_pairs, discover_pairs}
use tightbeam_ext.Asn.Emit.Rendering.{emit_codecs_ts, FileSystem, prepare, emit_from_paths}

module _ {World Location IoError : Type 0} (fs : FileSystem World Location IoError) where
  -- A run that succeeds with some names has found them in the input and has last written the module
  -- generated for them to the output; a run that finds none has changed nothing.
  pub emit_from_paths-outcome :
      (world : World) (from_dts out : Location) (opts : EmitOptions)
      → ((names : List Text)
          → (emit_from_paths fs world from_dts out opts).1 ≡ ok names
          → (dts : Text) × (middle : World) × (fs.read_to_string world from_dts ≡ ok dts)
            × (discover_pairs {IoError = IoError} dts ≡ ok names)
            × (fs.write middle out (emit_codecs_ts names opts)
                ≡ ((emit_from_paths fs world from_dts out opts).0, ok tt)))
        × ((emit_from_paths fs world from_dts out opts).1 ≡ err no_codec_pairs
            → (emit_from_paths fs world from_dts out opts).0 ≡ world)
  unfolding emit_from_paths
  emit_from_paths-outcome world from_dts out opts =
      elim (Result-cases (fs.read_to_string world from_dts)) [
        | inr (cause, e) ↦ rw (e, emit_from_paths) (λ names h. absurd (ground arith), λ h. refl)
        | inl (dts, e) ↦ elim (Result-cases (discover_pairs {IoError = IoError} dts)) [
          | inr (cause, g) ↦
              rw (e, g, emit_from_paths) (λ names h. absurd (ground arith), λ h. refl)
          | inl (names, g) ↦
              let middle = (prepare fs world out).0 in
              let written = fs.write middle out (emit_codecs_ts names opts) in
              elim (Result-cases (prepare fs world out).1) [
                | inr (cause, p) ↦
                    rw (e, g, p, emit_from_paths)
                      (λ names' h. absurd (ground arith), λ h. absurd (ground arith))
                | inl (done, p) ↦ elim (Result-cases written.1) [
                  | inr (cause, w) ↦
                      rw (e, g, p, w, emit_from_paths)
                        (λ names' h. absurd (ground arith), λ h. absurd (ground arith))
                  | inl (done', w) ↦
                      rw (e, g, p, w, emit_from_paths)
                        (
                          λ names' h.
                              let same : names ≡ names' = ground arith in
                              (
                                dts,
                                middle,
                                refl,
                                g ∙ ap ok same,
                                subst
                                    (λ (ns : List Text).
                                      fs.write middle out (emit_codecs_ts ns opts)
                                      ≡ (written.0, ok tt))
                                    same (ap (λ a. (written.0, a)) w),
                              ),
                          λ h. absurd (ground arith),
                        )
                ]
              ]
        ]
      ]
