-- ===== src/Tests/Peak.antt =====
-- The statistics of a log.
use syncfs.Base.{◌≡◌, refl, none, some, String}
use syncfs.Base.Decimal.{value}
use syncfs.Peak.{
  match_row, peak_peers, blocks, split_lines, count_rows, table_sums, best_of, from_tab, digits,
  number, two_digits,
}
use syncfs.Peak.Most.{Most, peers_in, torrents_in, peak_peers-Most}
use syncfs.Peak.Printed.{Torrent, printed_row, match_row-printed_row}

abbrev torrent : Torrent
torrent = record {
  file_path = "f1";
  progress = 73;
  total_done = 4096;
  num_seeds = 3;
  num_peers = 12;
  state = "seeding";
}

match_row-printed_row_example : match_row (printed_row torrent) ≡ some 12
match_row-printed_row_example =
    match_row-printed_row torrent "s" "eeding" (refl, (refl, tt)) refl
      (refl, (refl, (refl, (refl, (refl, (refl, (refl, tt)))))))

abbrev log : String
log =
    "x\nName\t\tProgr\t\tTotal\t\tSeeds\tPeers\tState\nf1\t\t0.50\t\t7\t\t0\t2\tup\nf2\t\t1.00\t\t9\t\t1\t3\tup\nName\t\tProgr\t\tTotal\nf1\t\t1.00\t\t9\t\t1\t4\tup\n"

peak_peers-Most_example :
    Most peers_in (peak_peers log).0 (blocks 0 log)
    × Most torrents_in (peak_peers log).1 (blocks 0 log)
peak_peers-Most_example = peak_peers-Most log

peak_run : peak_peers log ≡ (5, 2)
unfolding peak_peers best_of blocks table_sums split_lines count_rows match_row from_tab number
    digits two_digits value
peak_run = refl

odd_progress : match_row "f\t\t1.0\t\t9\t\t1\t4\tup" ≡ none
unfolding match_row from_tab number digits two_digits value
odd_progress = refl
