-- ===== src/Lib.antt =====
-- Models of the core of futility, the Chromium OS firmware utility, and of the verified boot
-- library that it carries in libvboot_util, with proofs about them.
--
-- futility maps a file, decides what it is, and walks over its parts. An image is a flash map with
-- areas: the Google Binary Block (GBB), with the root key and the hardware ID, and two slots of
-- firmware with a block that signs it. The blocks are key blocks, followed by preambles, checked by
-- vboot_common.c. Disks have a GUID partition table, and firmware and kernel talk through a
-- non-volatile block.
--
-- Which file models what, with the code it is about:
--   NvStorage   libvboot_util/firmware/vboot_nvstorage.c and crc8.c. VbNvContext is a record of a
--               function from indices to bytes and the two flags; VbNvSetup, VbNvTeardown, VbNvGet
--               and VbNvSet are setup, teardown, get and nv_set. Fields has an independent
--               description of where each parameter is kept.
--   Fmap        libvboot_util/host/fmap.c: fmap_find and fmap_find_by_name.
--   Verify      libvboot_util/firmware/vboot_common.c: VerifyMemberInside, PublicKeyToRSA, VerifyData,
--               KeyBlockVerify, VerifyFirmwarePreamble and VerifyKernelPreamble under their names, and
--               what they call of cryptolib/rsa_utility.c, firmware/stateful_util.c, firmware/utility.c
--               and host/host_key.c. The results 0 and 1 are true and false.
--   Host        libvboot_util/host/host_signature.c, KeyBlockCreate of host_keyblock.c,
--               CreateFirmwarePreamble and CreateKernelPreamble of host_common.c, PublicKeyInit and
--               PublicKeyCopy of firmware/vboot_common.c, and tables of cryptolib/padding.c. What is
--               made stands at the start of a buffer of its own. It uses Verify.
--   Gpt         libvboot_util/cgptlib: Crc32, CheckParameters, CheckHeader, CheckEntries,
--               GptSanityCheck, the attributes of entries and their setters, GptRepair and GptModified
--               of cgptlib_internal.c; GptInit, GptNextKernelEntry with the part of GptData that it
--               keeps, GptUpdateKernelWithEntry, GptUpdateKernelEntry and GptFindNthEntry of
--               cgptlib.c. An entry is an index in the primary entries.
--   Gbb         src/misc.c: futil_valid_gbb_header; src/cmd_gbb_utility.c: create_gbb, FindGbbHeader,
--               and the get and set modes of do_gbb_utility; the HWID digest of src/misc.c.
--   FileType    the recognizers of src/misc.c, src/traversal.c and src/vb1_helper.c, and
--               futil_file_type_buf of src/file_type.c, which tries them in order.
--   Traversal   src/traversal.c: futil_traverse over any callbacks. It uses Fmap and FileType.
--   DumpFmap    src/cmd_dump_fmap.c: human_fmap and what it calls. A node is a record, the nodes are a
--               list, with the root beside it, and a parent is an index; the output is a list of
--               the calls of line and empty. dump_fmap as it extracts areas to files.
--   LoadFmap    src/cmd_load_fmap.c: the loop of do_load_fmap over the mapped file.
--   Pcr         src/cmd_pcr.c: do_pcr behind its options, with the lines that it prints.
--   Prelude     numbers of fixed width, buffers with little-endian fields, lists.
--
-- A buffer is a function from offsets to bytes, and a structure in it is an offset: a pointer into
-- the buffer. Nothing is known of the bytes past the length that a function is given. Where C leaves
-- the behaviour undefined, as in the use of a NULL pointer, the model's result is none. uint32_t and
-- uint64_t sums and differences wrap in the model as they do in C.
--
-- The loops of the code are recursions on the number of rounds left, which the code fixes, but for
-- those of fmap_find: they have a count of rounds above the last offset, and Fmap.Scan and Fmap.Find
-- show that it is not used up; and but for the recursion of show, which DumpFmap.Depth bounds.
--
-- Parameters: the digests and the RSA operation of cryptolib (the record Crypto), malloc and the RSA
-- operation of OpenSSL that signs (the record Outside; what is relied on is the record Signs), the
-- parser of private keys of OpenSSL, the callbacks of a traversal, and what files hold.
--
-- Not modelled: the reading and writing of files, the parsing of options and all printing; the
-- implementation of SHA and RSA; the commands but for those above; what the host library does with
-- files and with an external signer; the firmware's boot flow and the stubs of its interfaces.
pub mod Prelude
pub mod NvStorage
pub mod Fmap
pub mod Verify
pub mod Host
pub mod Gpt
pub mod Gbb
pub mod FileType
pub mod Traversal
pub mod DumpFmap
pub mod LoadFmap
pub mod Pcr
