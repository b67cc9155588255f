-- ===== src/Worker/Claim/Order.antt =====
-- The order of the claim, and the sorted list that LIMIT cuts.
use job_scheduler.Prelude.{
  ◌≡◌, true, false, List, Memᴰ, arith, IsSorted, mem-sort_by, mem-sort_by_of_mem, sort_by-IsSorted,
}
use job_scheduler.Db.{Job}
use job_scheduler.Worker.Claim.{ranks_before, rank}

pub ranks_before_total : (a b : Job) → ranks_before a b ≡ false → ranks_before b a ≡ true
unfolding ranks_before
ranks_before_total a b h = ground arith

pub ranks_before_trans :
    (a b c : Job) → ranks_before a b ≡ true → ranks_before b c ≡ true → ranks_before a c ≡ true
unfolding ranks_before
ranks_before_trans a b c p q = ground arith

pub mem-rank : {x : Job} (xs : List Job) → Memᴰ x (rank xs) → Memᴰ x xs
unfolding rank
mem-rank xs m = mem-sort_by ranks_before xs m

pub mem-rank_of_mem : {x : Job} (xs : List Job) → Memᴰ x xs → Memᴰ x (rank xs)
unfolding rank
mem-rank_of_mem xs m = mem-sort_by_of_mem ranks_before xs m

pub rank-IsSorted : (xs : List Job) → IsSorted ranks_before (rank xs)
unfolding rank
rank-IsSorted xs = sort_by-IsSorted ranks_before ranks_before_total ranks_before_trans xs
