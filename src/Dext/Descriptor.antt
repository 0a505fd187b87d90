-- ===== src/Dext/Descriptor.antt =====
-- platform/ohci-dext/ohci_dma.h and ohci_async.h: a descriptor, and the block of descriptors that sends
-- an asynchronous request.
use userface.Base.{ℕ}

pub record Descriptor : Type 0 where
  pub req_count : ℕ
  pub control : ℕ
  pub data_address : ℕ
  pub branch_address : ℕ
  pub res_count : ℕ
  pub transfer_status : ℕ

abbrev pub zeroed : Descriptor
zeroed = record {
  req_count = 0;
  control = 0;
  data_address = 0;
  branch_address = 0;
  res_count = 0;
  transfer_status = 0;
}

abbrev pub output_last : ℕ
output_last = 0x1000

abbrev pub input_more : ℕ
input_more = 0x2000

abbrev pub input_last : ℕ
input_last = 0x3000

abbrev pub desc_status : ℕ
desc_status = 0x800

abbrev pub key_immediate : ℕ
key_immediate = 0x200

abbrev pub irq_always : ℕ
irq_always = 0x30

abbrev pub branch_always : ℕ
branch_always = 0xc

-- What the driver's methods return.
pub data IoReturn : Type 0 where
  success : IoReturn
  bad_argument : IoReturn
  not_ready : IoReturn
  no_device : IoReturn
  io_error : IoReturn
  busy : IoReturn
  timeout : IoReturn
