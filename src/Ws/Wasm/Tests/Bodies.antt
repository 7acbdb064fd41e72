-- ===== src/Ws/Wasm/Tests/Bodies.antt =====
-- Concrete inputs for the theorems about the assembly of frames in
-- ws/tightbeam-ws-wasm/src/build.rs.
use tightbeam_ext.Prelude.{ℕ, ◌≡◌, ◌↔◌, refl, [], ◌∷◌, arith, Bytes}
use tightbeam_ext.Prelude.Result.{Result, ok}
use tightbeam_ext.Ws.Wasm.Build.Config.{
  FrameBuilder, CommitmentSalt, plain_salt, hiding, commitment_preimage, big_endian,
}
use tightbeam_ext.Ws.Wasm.Build.Preimage.{commitment_preimage-injective}
use tightbeam_ext.Ws.Wasm.Tests.Codec.{Fault}
use tightbeam_ext.Ws.Wasm.Tests.Frames.{ExampleFrame, frame_from_der}

-- A priority is a number, and so are a link and a matrix. The builder keeps the id and the order, and writes them with an empty message.
abbrev pub frame_bytes : Bytes × ℕ → Bytes
frame_bytes b = 0 ∷ 13 ∷ 9 ∷ 1 ∷ 1 ∷ 0 ∷ 6 ∷ 15 ∷ 1 ∷ 9 ∷ 9 ∷ 1 ∷ b.1 ∷ 15 ∷ 0 ∷ []

abbrev pub builders : FrameBuilder (Bytes × ℕ) ExampleFrame Bytes ℕ ℕ ℕ Fault
builders = record {
  new_body = λ b. ok b;
  into_bytes = λ b. b;
  body_to_der = λ b. ok b;
  body_from_der = λ b. ok b;
  from = λ version. ([], 0);
  with_id = λ id b. (id, b.1);
  with_order = λ order b. (b.0, order);
  with_message = λ body b. b;
  with_priority = λ priority b. b;
  with_lifetime = λ lifetime b. b;
  with_previous_hash = λ hash b. b;
  with_matrix_dyn = λ matrix b. b;
  build_frame = λ b. frame_from_der (frame_bytes b);
  frame_to_der = λ f. ok (frame_bytes ([], 5));
}

abbrev pub built : Bytes
built = 0 ∷ 15 ∷ 9 ∷ 1 ∷ 1 ∷ 0 ∷ 6 ∷ 15 ∷ 1 ∷ 9 ∷ 9 ∷ 1 ∷ 5 ∷ 15 ∷ 2 ∷ 4 ∷ 4 ∷ []

-- Every salt that is not empty hides.
abbrev parse_salt : Bytes → Result CommitmentSalt ℕ
parse_salt [] = ok plain_salt
parse_salt (b ∷ salt) = ok (hiding (b ∷ salt))

plain_iff : (salt : Bytes) → (parse_salt salt ≡ ok plain_salt) ↔ (salt ≡ [])
plain_iff [] = (λ e. refl, λ e. refl)
plain_iff (b ∷ salt) = (λ e. ground arith, λ e. ground arith)

abbrev hidden : Bytes
hidden = 1 ∷ 0 ∷ 0 ∷ 0 ∷ 0 ∷ 0 ∷ 0 ∷ 0 ∷ 2 ∷ 7 ∷ 7 ∷ 4 ∷ []

salted : commitment_preimage parse_salt (7 ∷ 7 ∷ []) (4 ∷ []) ≡ ok hidden
unfolding commitment_preimage big_endian
salted = refl

commitment_preimage-injective_example :
    (◌≡◌ {A = Bytes} (7 ∷ 7 ∷ []) (7 ∷ 7 ∷ [])) × (◌≡◌ {A = Bytes} (4 ∷ []) (4 ∷ []))
commitment_preimage-injective_example =
    commitment_preimage-injective parse_salt plain_iff (7 ∷ 7 ∷ []) (7 ∷ 7 ∷ []) (4 ∷ []) (4 ∷ [])
      hidden (omega arith) (omega arith) salted salted
