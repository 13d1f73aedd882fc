-- ===== src/Info/Default/Reverse1.antt =====
-- lib/InfoModel.cpp: a part of the table that InfoModel::default5103 adds, in its order.
use libfc.Prelude.{ℕ, List, [], ◌∷◌, codes}

abbrev pub reverse_specs_1 : List (List ℕ)
reverse_specs_1 =
    codes "reverseOctetDeltaCount(29305/1)<unsigned64>[8]"
    ∷ codes "reversePacketDeltaCount(29305/2)<unsigned64>[8]"
    ∷ codes "reverseDeltaFlowCount(29305/3)<unsigned64>[8]"
    ∷ codes "reverseProtocolIdentifier(29305/4)<unsigned8>[1]"
    ∷ codes "reverseIpClassOfService(29305/5)<unsigned8>[1]"
    ∷ codes "reverseTcpControlBits(29305/6)<unsigned8>[1]"
    ∷ codes "reverseSourceTransportPort(29305/7)<unsigned16>[2]"
    ∷ codes "reverseSourceIPv4Address(29305/8)<ipv4Address>[4]"
    ∷ codes "reverseSourceIPv4PrefixLength(29305/9)<unsigned8>[1]"
    ∷ codes "reverseIngressInterface(29305/10)<unsigned32>[4]"
    ∷ codes "reverseDestinationTransportPort(29305/11)<unsigned16>[2]"
    ∷ codes "reverseDestinationIPv4Address(29305/12)<ipv4Address>[4]"
    ∷ codes "reverseDestinationIPv4PrefixLength(29305/13)<unsigned8>[1]"
    ∷ codes "reverseEgressInterface(29305/14)<unsigned32>[4]"
    ∷ codes "reverseIpNextHopIPv4Address(29305/15)<ipv4Address>[4]"
    ∷ codes "reverseBgpSourceAsNumber(29305/16)<unsigned32>[4]"
    ∷ codes "reverseBgpDestinationAsNumber(29305/17)<unsigned32>[4]"
    ∷ codes "reverseBgpNextHopIPv4Address(29305/18)<ipv4Address>[4]"
    ∷ codes "reversePostMCastPacketDeltaCount(29305/19)<unsigned64>[8]"
    ∷ codes "reversePostMCastOctetDeltaCount(29305/20)<unsigned64>[8]"
    ∷ codes "reverseFlowEndSysUpTime(29305/21)<unsigned32>[4]"
    ∷ codes "reverseFlowStartSysUpTime(29305/22)<unsigned32>[4]"
    ∷ codes "reversePostOctetDeltaCount(29305/23)<unsigned64>[8]"
    ∷ codes "reversePostPacketDeltaCount(29305/24)<unsigned64>[8]"
    ∷ codes "reverseMinimumIpTotalLength(29305/25)<unsigned64>[8]"
    ∷ codes "reverseMaximumIpTotalLength(29305/26)<unsigned64>[8]"
    ∷ codes "reverseSourceIPv6Address(29305/27)<ipv6Address>[16]"
    ∷ codes "reverseDestinationIPv6Address(29305/28)<ipv6Address>[16]"
    ∷ codes "reverseSourceIPv6PrefixLength(29305/29)<unsigned8>[1]"
    ∷ codes "reverseDestinationIPv6PrefixLength(29305/30)<unsigned8>[1]"
    ∷ codes "reverseFlowLabelIPv6(29305/31)<unsigned32>[4]"
    ∷ codes "reverseIcmpTypeCodeIPv4(29305/32)<unsigned16>[2]"
    ∷ codes "reverseIgmpType(29305/33)<unsigned8>[1]"
    ∷ codes "reverseFlowActiveTimeout(29305/36)<unsigned16>[2]"
    ∷ codes "reverseFlowIdleTimeout(29305/37)<unsigned16>[2]"
    ∷ codes "reverseExportedOctetTotalCount(29305/40)<unsigned64>[8]"
    ∷ codes "reverseExportedMessageTotalCount(29305/41)<unsigned64>[8]"
    ∷ codes "reverseExportedFlowRecordTotalCount(29305/42)<unsigned64>[8]"
    ∷ codes "reverseSourceIPv4Prefix(29305/44)<ipv4Address>[4]"
    ∷ codes "reverseDestinationIPv4Prefix(29305/45)<ipv4Address>[4]"
    ∷ codes "reverseMplsTopLabelType(29305/46)<unsigned8>[1]"
    ∷ codes "reverseMplsTopLabelIPv4Address(29305/47)<ipv4Address>[4]"
    ∷ codes "reverseMinimumTTL(29305/52)<unsigned8>[1]"
    ∷ codes "reverseMaximumTTL(29305/53)<unsigned8>[1]"
    ∷ codes "reverseFragmentIdentification(29305/54)<unsigned32>[4]"
    ∷ codes "reversePostIpClassOfService(29305/55)<unsigned8>[1]"
    ∷ codes "reverseSourceMacAddress(29305/56)<macAddress>[6]"
    ∷ codes "reversePostDestinationMacAddress(29305/57)<macAddress>[6]"
    ∷ codes "reverseVlanId(29305/58)<unsigned16>[2]"
    ∷ codes "reversePostVlanId(29305/59)<unsigned16>[2]"
    ∷ codes "reverseIpVersion(29305/60)<unsigned8>[1]"
    ∷ codes "reverseFlowDirection(29305/61)<unsigned8>[1]"
    ∷ codes "reverseIpNextHopIPv6Address(29305/62)<ipv6Address>[16]"
    ∷ codes "reverseBgpNextHopIPv6Address(29305/63)<ipv6Address>[16]"
    ∷ codes "reverseIpv6ExtensionHeaders(29305/64)<unsigned32>[4]"
    ∷ codes "reverseMplsTopLabelStackSection(29305/70)<octetArray>[65535]"
    ∷ codes "reverseMplsLabelStackSection2(29305/71)<octetArray>[65535]"
    ∷ codes "reverseMplsLabelStackSection3(29305/72)<octetArray>[65535]"
    ∷ codes "reverseMplsLabelStackSection4(29305/73)<octetArray>[65535]"
    ∷ codes "reverseMplsLabelStackSection5(29305/74)<octetArray>[65535]"
    ∷ codes "reverseMplsLabelStackSection6(29305/75)<octetArray>[65535]"
    ∷ codes "reverseMplsLabelStackSection7(29305/76)<octetArray>[65535]"
    ∷ codes "reverseMplsLabelStackSection8(29305/77)<octetArray>[65535]"
    ∷ codes "reverseMplsLabelStackSection9(29305/78)<octetArray>[65535]"
    ∷ codes "reverseMplsLabelStackSection10(29305/79)<octetArray>[65535]"
    ∷ codes "reverseDestinationMacAddress(29305/80)<macAddress>[6]"
    ∷ codes "reversePostSourceMacAddress(29305/81)<macAddress>[6]"
    ∷ codes "reverseInterfaceName(29305/82)<string>[65535]"
    ∷ codes "reverseInterfaceDescription(29305/83)<string>[65535]"
    ∷ codes "reverseOctetTotalCount(29305/85)<unsigned64>[8]"
    ∷ codes "reversePacketTotalCount(29305/86)<unsigned64>[8]"
    ∷ codes "reverseFragmentOffset(29305/88)<unsigned16>[2]"
    ∷ codes "reverseMplsVpnRouteDistinguisher(29305/90)<octetArray>[65535]"
    ∷ codes "reverseMplsTopLabelPrefixLength(29305/91)<unsigned8>[1]"
    ∷ codes "reverseApplicationDescription(29305/94)<string>[65535]"
    ∷ codes "reverseApplicationId(29305/95)<octetArray>[65535]"
    ∷ codes "reverseApplicationName(29305/96)<string>[65535]"
    ∷ codes "reversePostIpDiffServCodePoint(29305/98)<unsigned8>[1]"
    ∷ codes "reverseMulticastReplicationFactor(29305/99)<unsigned32>[4]"
    ∷ codes "reverseClassificationEngineId(29305/101)<unsigned8>[1]"
    ∷ codes "reverseBgpNextAdjacentAsNumber(29305/128)<unsigned32>[4]"
    ∷ codes "reverseBgpPrevAdjacentAsNumber(29305/129)<unsigned32>[4]"
    ∷ codes "reverseExporterIPv4Address(29305/130)<ipv4Address>[4]"
    ∷ codes "reverseExporterIPv6Address(29305/131)<ipv6Address>[16]"
    ∷ codes "reverseDroppedOctetDeltaCount(29305/132)<unsigned64>[8]"
    ∷ codes "reverseDroppedPacketDeltaCount(29305/133)<unsigned64>[8]"
    ∷ codes "reverseDroppedOctetTotalCount(29305/134)<unsigned64>[8]"
    ∷ codes "reverseDroppedPacketTotalCount(29305/135)<unsigned64>[8]"
    ∷ codes "reverseFlowEndReason(29305/136)<unsigned8>[1]"
    ∷ codes "reverseCommonPropertiesId(29305/137)<unsigned64>[8]"
    ∷ codes "reverseObservationPointId(29305/138)<unsigned64>[8]"
    ∷ codes "reverseIcmpTypeCodeIPv6(29305/139)<unsigned16>[2]"
    ∷ codes "reverseMplsTopLabelIPv6Address(29305/140)<ipv6Address>[16]"
    ∷ codes "reverseLineCardId(29305/141)<unsigned32>[4]"
    ∷ codes "reversePortId(29305/142)<unsigned32>[4]"
    ∷ codes "reverseMeteringProcessId(29305/143)<unsigned32>[4]"
    ∷ codes "reverseExportingProcessId(29305/144)<unsigned32>[4]"
    ∷ codes "reverseTemplateId(29305/145)<unsigned16>[2]"
    ∷ codes "reverseWlanChannelId(29305/146)<unsigned8>[1]"
    ∷ codes "reverseWlanSSID(29305/147)<string>[65535]"
    ∷ codes "reverseFlowId(29305/148)<unsigned64>[8]"
    ∷ codes "reverseObservationDomainId(29305/149)<unsigned32>[4]"
    ∷ codes "reverseFlowStartSeconds(29305/150)<dateTimeSeconds>[4]"
    ∷ codes "reverseFlowEndSeconds(29305/151)<dateTimeSeconds>[4]"
    ∷ codes "reverseFlowStartMilliseconds(29305/152)<dateTimeMilliseconds>[8]"
    ∷ codes "reverseFlowEndMilliseconds(29305/153)<dateTimeMilliseconds>[8]"
    ∷ codes "reverseFlowStartMicroseconds(29305/154)<dateTimeMicroseconds>"
    ∷ codes "reverseFlowEndMicroseconds(29305/155)<dateTimeMicroseconds>"
    ∷ codes "reverseFlowStartNanoseconds(29305/156)<dateTimeNanoseconds>"
    ∷ codes "reverseFlowEndNanoseconds(29305/157)<dateTimeNanoseconds>"
    ∷ codes "reverseFlowStartDeltaMicroseconds(29305/158)<unsigned32>[4]"
    ∷ codes "reverseFlowEndDeltaMicroseconds(29305/159)<unsigned32>[4]"
    ∷ codes "reverseSystemInitTimeMilliseconds(29305/160)<dateTimeMilliseconds>[8]"
    ∷ codes "reverseFlowDurationMilliseconds(29305/161)<unsigned32>[4]"
    ∷ codes "reverseFlowDurationMicroseconds(29305/162)<unsigned32>[4]"
    ∷ codes "reverseObservedFlowTotalCount(29305/163)<unsigned64>[8]"
    ∷ codes "reverseIgnoredPacketTotalCount(29305/164)<unsigned64>[8]"
    ∷ codes "reverseIgnoredOctetTotalCount(29305/165)<unsigned64>[8]"
    ∷ codes "reverseNotSentFlowTotalCount(29305/166)<unsigned64>[8]"
    ∷ codes "reverseNotSentPacketTotalCount(29305/167)<unsigned64>[8]"
    ∷ codes "reverseNotSentOctetTotalCount(29305/168)<unsigned64>[8]"
    ∷ codes "reverseDestinationIPv6Prefix(29305/169)<ipv6Address>[16]"
    ∷ codes "reverseSourceIPv6Prefix(29305/170)<ipv6Address>[16]"
    ∷ codes "reversePostOctetTotalCount(29305/171)<unsigned64>[8]"
    ∷ codes "reversePostPacketTotalCount(29305/172)<unsigned64>[8]"
    ∷ codes "reverseFlowKeyIndicator(29305/173)<unsigned64>[8]"
    ∷ codes "reversePostMCastPacketTotalCount(29305/174)<unsigned64>[8]"
    ∷ []
