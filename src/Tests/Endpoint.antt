-- ===== src/Tests/Endpoint.antt =====
-- The theorem on crates/daphne-sc-server/src/endpoint.rs, on a memory of bytes that count up.
use daphne_sc.Prelude.{ℕ, ◌+◌, ◌*◌, ◌%◌, ◌^◌, ◌≡◌, refl, ok, arith}
use daphne_sc.Endpoint.{DevMem, ep_stat, read_phys_u32}
use daphne_sc.Endpoint.Pages.{IsPaged, read_phys_u32_lem}

abbrev counting : ℕ → ℕ
counting address = address % 2 ^ 8

abbrev counting_memory : DevMem (Unit {0})
counting_memory = record {
  open_mem = λ k. ok tt;
  sysconf_page_size = λ k. ok (2 ^ 12);
  mmap = λ k length offset. ok (λ i. counting (offset + i));
  munmap = λ k. ok tt;
}

counting_memory-IsPaged : IsPaged counting_memory counting 12 tt
counting_memory-IsPaged = record {
  opens = refl;
  sized = refl;
  maps = λ page. (λ i. counting (page * 2 ^ 12 + i), refl, λ i h. refl);
  unmaps = refl;
}

read_phys_u32_lem_example :
    read_phys_u32 counting_memory ep_stat tt
    ≡ ok (0x0c + 0x0d * 2 ^ 8 + 0x0e * 2 ^ 16 + 0x0f * 2 ^ 24)
read_phys_u32_lem_example =
    read_phys_u32_lem counting_memory counting 12 tt ep_stat counting_memory-IsPaged (omega arith)
      (omega arith) (omega arith) (omega arith)
