-- ===== src/Abi/Arena/Tests.antt =====
-- Tests of the arena.
use cheetah_media_engine.Prelude.{◌≡◌, refl, [], ◌∷◌, arith}
use cheetah_media_engine.Abi.Arena.{
  MemoryArena, Handle, occupied, new_region, ok, err, double_free, store, read, release, validate,
}
use cheetah_media_engine.Abi.Arena.Handles.{request_of, store_of, perform_all}
use cheetah_media_engine.Abi.Arena.Refused.{IsUseless, release-IsRefused}
use cheetah_media_engine.Abi.Arena.Contents.{read-store}

abbrev one_region : MemoryArena
one_region = record {
  instance_id = 7;
  slots = occupied 1 (new_region 4) ∷ [];
  free = [];
  next_generation = 2;
}

abbrev first_handle : Handle
first_handle = record { instance_id = 7; slot = 0; generation = 1 }

release-IsRefused_example :
    ((release one_region first_handle).1 ≡ ok 0)
    × IsUseless
        (perform_all
          (release one_region first_handle).0
          (request_of 8 ∷ store_of (1 ∷ 2 ∷ []) ∷ []))
        first_handle
        (9 ∷ [])
        1
unfolding validate
release-IsRefused_example =
    release-IsRefused one_region first_handle (request_of 8 ∷ store_of (1 ∷ 2 ∷ []) ∷ []) (9 ∷ []) 1
      (omega arith) refl

read-store_example :
    (b : MemoryArena) × (h : Handle) × (store one_region (1 ∷ 2 ∷ 3 ∷ []) ≡ (b, ok h))
    × (read b h ≡ ok (1 ∷ 2 ∷ 3 ∷ []))
read-store_example =
    read-store one_region (1 ∷ 2 ∷ 3 ∷ []) (omega arith) (omega arith) (omega arith) (omega arith)
      (omega arith)

second_release : (release (release one_region first_handle).0 first_handle).1 ≡ err double_free
unfolding release validate
second_release = refl
