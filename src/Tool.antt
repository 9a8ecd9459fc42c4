-- ===== src/Tool.antt =====
-- The userspace tool: tools/yaml_parser.c, include/bpfima_policy_user.h and the commands of
-- tools/bpfima_tool.c that lead to the policy map.
pub mod Yaml
pub mod Build
