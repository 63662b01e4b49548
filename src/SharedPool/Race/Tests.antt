-- ===== src/SharedPool/Race/Tests.antt =====
-- Threads 7 and 9 race for the entries of a pool that has one.
use now_os.Base.{ℕ, ◌≡◌, refl, arith}
use now_os.SharedPool.{SharedPool, try_bit, write_word}
use now_os.SharedPool.Bitmap.{slot, IsPool}
use now_os.SharedPool.Race.{
  System, idle, reading, trying, holding, moved, read_word, after_round, search_step, calls_get,
  searches, Reachable, start, next,
}
use now_os.SharedPool.Race.Owners.{one_owner}

abbrev one_entry : SharedPool
one_entry = record { buf = 0x1000; free_list = λ i. 0; max_obj_num = 1; type_size = 16 }

one_entry-IsPool : IsPool one_entry
one_entry-IsPool = record {
  not_null = omega arith;
  some_bytes = omega arith;
  in_memory = omega arith;
  few = omega arith;
  is_word = λ i. omega arith;
}

abbrev fresh : System
fresh = record { pool = one_entry; phase = λ t. idle }

abbrev seven_reads : System
seven_reads = moved 7 (reading 0 0) one_entry fresh

abbrev nine_reads : System
nine_reads = moved 9 (reading 0 0) one_entry seven_reads

abbrev seven_tries : System
seven_tries = moved 7 (trying 0 0 0 0) one_entry nine_reads

abbrev nine_tries : System
nine_tries = moved 9 (trying 0 0 0 0) one_entry seven_tries

abbrev nine_holds : System
nine_holds = moved 9 (holding 0) (write_word 0 1 one_entry) nine_tries

seven_reads-Reachable : Reachable one_entry seven_reads
seven_reads-Reachable = next fresh seven_reads start (calls_get 7 refl)

nine_reads-Reachable : Reachable one_entry nine_reads
nine_reads-Reachable = next seven_reads nine_reads seven_reads-Reachable (calls_get 9 refl)

seven_tries-Reachable : Reachable one_entry seven_tries
unfolding search_step read_word
seven_tries-Reachable =
    next nine_reads seven_tries nine_reads-Reachable (searches 7 seven_tries refl)

nine_tries-Reachable : Reachable one_entry nine_tries
unfolding search_step read_word
nine_tries-Reachable =
    next seven_tries nine_tries seven_tries-Reachable (searches 9 nine_tries refl)

nine_holds-Reachable : Reachable one_entry nine_holds
unfolding search_step after_round try_bit
nine_holds-Reachable = next nine_tries nine_holds nine_tries-Reachable (searches 9 nine_holds refl)

one_owner_example : (◌≡◌ {A = ℕ} 9 9) × (slot nine_holds.pool 0 ≡ 1)
one_owner_example =
    one_owner one_entry nine_holds 9 9 0 one_entry-IsPool nine_holds-Reachable refl refl

-- Thread 7 has lost the only entry, 0. It goes on to the next bit, and holds index 1, which is no entry.
abbrev seven_goes_on : System
seven_goes_on = moved 7 (trying 1 0 0 1) (write_word 0 1 nine_holds.pool) nine_holds

abbrev seven_holds : System
seven_holds = moved 7 (holding 1) (write_word 0 3 seven_goes_on.pool) seven_goes_on

seven_goes_on-Reachable : Reachable one_entry seven_goes_on
unfolding search_step after_round try_bit
seven_goes_on-Reachable =
    next nine_holds seven_goes_on nine_holds-Reachable (searches 7 seven_goes_on refl)

seven_holds-Reachable : Reachable one_entry seven_holds
unfolding search_step after_round try_bit
seven_holds-Reachable =
    next seven_goes_on seven_holds seven_goes_on-Reachable (searches 7 seven_holds refl)
