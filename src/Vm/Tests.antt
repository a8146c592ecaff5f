-- ===== src/Vm/Tests.antt =====
-- mappages and walkaddr on a small page table.
use computer_system.Prelude.{◌+◌, ◌-◌, ◌≡◌, ◌&&◌, ltb, if◌then◌else◌, arith}
use computer_system.Vm.{
  max_va, page_round_down, pte2pa, is_valid, mappages, walkaddr, user_page, is_user,
}
use computer_system.Vm.Page.{entry}
use computer_system.Vm.Map.{Maps, mappages-Maps, walkaddr_lem}
use computer_system.Vm.Sample.{one_page, one_page-Rooted}

mappages-Maps_example :
    Maps one_page 0x80201000
      (page_round_down 4100)
      (page_round_down (4100 + 10 - 1))
      0x80208000
      user_page
      (mappages 4 one_page 0x80201000 4100 10 0x80208000 user_page)
mappages-Maps_example =
    mappages-Maps 4 one_page 0x80201000 4100 10 0x80208000 user_page one_page-Rooted (omega arith)
      (omega arith) (omega arith)

walkaddr_lem_example : walkaddr one_page 0x80201000 12 ≡ (
    if ltb 12 max_va
      && is_valid (entry one_page 0x80201000 12)
      && is_user (entry one_page 0x80201000 12)
    then pte2pa (entry one_page 0x80201000 12)
    else 0)
walkaddr_lem_example = walkaddr_lem one_page 0x80201000 12
